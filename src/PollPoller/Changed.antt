-- ===== src/PollPoller/Changed.antt =====
-- muduo/net/PollPoller.cpp: `updateChannel` of a channel that has a pollfd.
use mathlib.Core.Option.{some-injective}
use learn_muduo.Prelude.{
  ℕ, ◌<◌, ◌≡◌, ◌≢◌, ◌∙◌, refl, sym, ap, subst, inl, inr, true, false, some, length, get_elem?, set,
  ==_iff, eq→==, Bool-cases, Option-cases, if◌then◌else◌,
}
use learn_muduo.Channel.{Channel, is_none_event}
use learn_muduo.LogStream.{pos, negsuc}
use learn_muduo.TcpServer.Steps.{eq_or_ne}
use learn_muduo.PollPoller.{PollFd, PollPoller, fd_of, is_ignored, updated_pollfd, update_at}
use learn_muduo.PollPoller.Lists.{get-set_same, get-set_other, get-bound}
use learn_muduo.PollPoller.Slots.{
  Slot, Entry, Agrees, pollfd_of, pollfd_of-found, pollfd_of-missing,
}

-- A channel that has a pollfd.
module _ (s : PollPoller) (p i : ℕ) (a : Agrees s) (known : (s.heap p).index ≡ some i)
    (listed : s.channels (s.heap p).fd ≡ some p) where
  abbrev k : Channel
  k = s.heap p

  abbrev pub changed : PollPoller
  changed = record s { pollfds = set s.pollfds i (updated_pollfd k) }

  own : (d : PollFd) × (get_elem? s.pollfds i ≡ some d) × (fd_of d.fd ≡ k.fd)
  own =
      let t : Entry s k.fd p = a.entry k.fd p listed in
      let at_i : t.place ≡ i = some-injective t.place i (sym t.indexed ∙ known) in
      (t.pollfd, ap (get_elem? s.pollfds) (sym at_i) ∙ t.held, t.same_fd)

  inside : i < length s.pollfds
  inside = let (d, e, same) = own in get-bound s.pollfds i d e

  updated-fd : fd_of (updated_pollfd k).fd ≡ k.fd
  updated-fd = elim (Bool-cases (is_none_event k)) [
    | inl idle ↦ ap (λ b. fd_of (if b then negsuc k.fd else pos k.fd)) idle
    | inr busy ↦ ap (λ b. fd_of (if b then negsuc k.fd else pos k.fd)) busy
  ]

  updated-quiet : is_ignored (updated_pollfd k).fd ≡ true → k.events ≡ 0
  updated-quiet h = elim (Bool-cases (is_none_event k)) [
    | inl idle ↦ unfold is_none_event in (==_iff k.events 0).0 idle
    | inr busy ↦
        let bad : false ≡ true =
          sym (ap (λ b. is_ignored (if b then negsuc k.fd else pos k.fd)) busy) ∙ h in
        cc
  ]

  changed-Slot : (j : ℕ) (d : PollFd) → get_elem? changed.pollfds j ≡ some d → Slot changed j d
  changed-Slot j d e = elim (eq_or_ne j i) [
    | inl is ↦
        let same : updated_pollfd k ≡ d = some-injective (updated_pollfd k) d (
          sym (get-set_same s.pollfds i (updated_pollfd k) inside)
          ∙ ap (get_elem? changed.pollfds) (sym is)
          ∙ e) in
        subst (Slot changed j) same (record {
          channel = p;
          listed = ap s.channels updated-fd ∙ listed;
          own_fd = sym updated-fd;
          indexed = known ∙ ap some (sym is);
          quiet = updated-quiet;
        })
    | inr other ↦
        let t : Slot s j d =
          a.slot j d (sym (get-set_other s.pollfds i j (updated_pollfd k) other) ∙ e) in
        record {
          channel = t.channel;
          listed = t.listed;
          own_fd = t.own_fd;
          indexed = t.indexed;
          quiet = t.quiet;
        }
  ]

  changed-Entry : (fd q : ℕ) → changed.channels fd ≡ some q → Entry changed fd q
  changed-Entry fd q e =
      let t : Entry s fd q = a.entry fd q e in
      elim (eq_or_ne t.place i) [
        | inl is ↦
            let (d, held, same) = own in
            let same_pollfd : d ≡ t.pollfd =
              some-injective d t.pollfd (sym held ∙ ap (get_elem? s.pollfds) (sym is) ∙ t.held) in
            record {
              own_fd = t.own_fd;
              place = i;
              indexed = t.indexed ∙ ap some is;
              pollfd = updated_pollfd k;
              held = get-set_same s.pollfds i (updated_pollfd k) inside;
              same_fd = updated-fd ∙ sym same ∙ ap (λ x. fd_of x.fd) same_pollfd ∙ t.same_fd;
            }
        | inr other ↦ record {
          own_fd = t.own_fd;
          place = t.place;
          indexed = t.indexed;
          pollfd = t.pollfd;
          held = get-set_other s.pollfds i t.place (updated_pollfd k) other ∙ t.held;
          same_fd = t.same_fd;
        }
      ]

  pub changed-Agrees : Agrees changed
  changed-Agrees = record { slot = changed-Slot; entry = changed-Entry }

  -- Another descriptor's place is another one.
  other_place : (fd q : ℕ) → fd ≢ k.fd → (t : Entry s fd q) → t.place ≢ i
  other_place fd q ne t is =
      let (d, held, same) = own in
      let same_pollfd : d ≡ t.pollfd =
        some-injective d t.pollfd (sym held ∙ ap (get_elem? s.pollfds) (sym is) ∙ t.held) in
      ne (sym t.same_fd ∙ ap (λ x. fd_of x.fd) (sym same_pollfd) ∙ same)

  pub changed-others : (fd : ℕ) → fd ≢ k.fd → pollfd_of changed fd ≡ pollfd_of s fd
  changed-others fd ne = elim (Option-cases (s.channels fd)) [
    | inl missing ↦ pollfd_of-missing changed fd missing ∙ sym (pollfd_of-missing s fd missing)
    | inr (q, e) ↦
        let t : Entry s fd q = a.entry fd q e in
        pollfd_of-found changed fd q t.place e t.indexed
        ∙ get-set_other s.pollfds i t.place (updated_pollfd k) (other_place fd q ne t)
        ∙ sym (pollfd_of-found s fd q t.place e t.indexed)
  ]

  pub changed-own : pollfd_of changed k.fd ≡ some (updated_pollfd k)
  changed-own =
      pollfd_of-found changed k.fd p i listed known
      ∙ get-set_same s.pollfds i (updated_pollfd k) inside

  pub changed-made : update_at s p (some i) ≡ some changed
  changed-made =
      let (d, held, same) = own in
      rw (listed, eq→== p p refl, held, eq→== (fd_of d.fd) k.fd same) refl
