-- ===== src/PollPoller/Added.antt =====
-- muduo/net/PollPoller.cpp: `updateChannel` of a new channel.
use mathlib.Core.Option.{some-injective}
use learn_muduo.Prelude.{
  ℕ, ◌≡◌, ◌≢◌, ◌∙◌, refl, sym, ap, subst, inl, inr, [], ◌∷◌, ◌++◌, none, some, length,
  length-append, get_elem?, Bool-cases, Option-cases, arith, ltb, ltb→lt,
}
use learn_muduo.Channel.{Channel}
use learn_muduo.EPollPoller.{put}
use learn_muduo.EPollPoller.Agreement.{put-same, put-other}
use learn_muduo.TcpServer.Steps.{eq_or_ne}
use learn_muduo.PollPoller.{PollFd, PollPoller, fd_of, set_index, new_pollfd, update_at}
use learn_muduo.PollPoller.Lists.{get-bound, get-append_left, get-append_last}
use learn_muduo.PollPoller.Slots.{
  Slot, Entry, Agrees, pollfd_of, pollfd_of-found, pollfd_of-missing,
}

-- A new channel.
module _ (s : PollPoller) (p : ℕ) (a : Agrees s) (fresh : (s.heap p).index ≡ none)
    (free : s.channels (s.heap p).fd ≡ none) where
  n : ℕ
  n = length s.pollfds

  abbrev c : Channel
  c = s.heap p

  unfoldable pub added : PollPoller
  unfolding n
  added = record {
    heap = set_index s.heap p n;
    channels = put s.channels c.fd (some p);
    pollfds = s.pollfds ++ new_pollfd c ∷ [];
  }

  here : (set_index s.heap p n p).index ≡ some n
  here = ap (λ k. k.index) (put-same s.heap p (record c { index = some n }))

  here_fd : (set_index s.heap p n p).fd ≡ c.fd
  here_fd = ap (λ k. k.fd) (put-same s.heap p (record c { index = some n }))

  added-Slot : (i : ℕ) (d : PollFd) → get_elem? added.pollfds i ≡ some d → Slot added i d
  unfolding added n
  added-Slot i d e = elim (Bool-cases (ltb i (length s.pollfds))) [
    | inl old ↦
        let t : Slot s i d = a.slot i d (
          sym (get-append_left s.pollfds (new_pollfd c) i (ltb→lt i (length s.pollfds) old)) ∙ e) in
        let other_fd : fd_of d.fd ≢ c.fd = λ h.
          let bad : none ≡ some t.channel = sym free ∙ ap s.channels (sym h) ∙ t.listed in cc in
        let other : t.channel ≢ p = λ h.
          let bad : none ≡ some i = sym fresh ∙ ap (λ q. (s.heap q).index) (sym h) ∙ t.indexed in
          cc in
        let kept =
          put-other s.heap p t.channel (record c { index = some (length s.pollfds) }) other in
        record {
          channel = t.channel;
          listed = put-other s.channels c.fd (fd_of d.fd) (some p) other_fd ∙ t.listed;
          own_fd = ap (λ k. k.fd) kept ∙ t.own_fd;
          indexed = ap (λ k. k.index) kept ∙ t.indexed;
          quiet = t.quiet;
        }
    | inr latest ↦
        let bound = get-bound (s.pollfds ++ new_pollfd c ∷ []) i d e in
        let last : i ≡ length s.pollfds =
          ground (arith, latest, bound, length-append s.pollfds (new_pollfd c ∷ [])) in
        let is : new_pollfd c ≡ d = some-injective (new_pollfd c) d (
          sym (get-append_last s.pollfds (new_pollfd c))
          ∙ ap (get_elem? (s.pollfds ++ new_pollfd c ∷ [])) (sym last)
          ∙ e) in
        subst (Slot added i) is (record {
          channel = p;
          listed = put-same s.channels c.fd (some p);
          own_fd = here_fd;
          indexed = here ∙ ap some (sym last);
          quiet = λ h. absurd (cc);
        })
  ]

  added-Entry : (fd q : ℕ) → added.channels fd ≡ some q → Entry added fd q
  unfolding added n
  added-Entry fd q e = elim (eq_or_ne fd c.fd) [
    | inl is ↦
        let same : p ≡ q = some-injective p q (
          sym (put-same s.channels c.fd (some p))
          ∙ ap (put s.channels c.fd (some p)) (sym is)
          ∙ e) in
        subst (Entry added fd) same (record {
          own_fd = here_fd ∙ sym is;
          place = length s.pollfds;
          indexed = here;
          pollfd = new_pollfd c;
          held = get-append_last s.pollfds (new_pollfd c);
          same_fd = sym is;
        })
    | inr other ↦
        let t : Entry s fd q =
          a.entry fd q (sym (put-other s.channels c.fd fd (some p) other) ∙ e) in
        let other' : q ≢ p = λ h. other (sym t.own_fd ∙ ap (λ r. (s.heap r).fd) h) in
        let kept = put-other s.heap p q (record c { index = some (length s.pollfds) }) other' in
        record {
          own_fd = ap (λ k. k.fd) kept ∙ t.own_fd;
          place = t.place;
          indexed = ap (λ k. k.index) kept ∙ t.indexed;
          pollfd = t.pollfd;
          held =
              get-append_left s.pollfds (new_pollfd c) t.place
                (get-bound s.pollfds t.place t.pollfd t.held)
              ∙ t.held;
          same_fd = t.same_fd;
        }
  ]

  pub added-Agrees : Agrees added
  added-Agrees = record { slot = added-Slot; entry = added-Entry }

  pub added-made : update_at s p none ≡ some added
  unfolding added n
  added-made = rw free refl

  pub added-own : pollfd_of added c.fd ≡ some (new_pollfd c)
  unfolding added n
  added-own =
      pollfd_of-found added c.fd p (length s.pollfds) (put-same s.channels c.fd (some p)) here
      ∙ get-append_last s.pollfds (new_pollfd c)

  pub added-others : (fd : ℕ) → fd ≢ c.fd → pollfd_of added fd ≡ pollfd_of s fd
  unfolding added n
  added-others fd ne = elim (Option-cases (s.channels fd)) [
    | inl missing ↦
        pollfd_of-missing added fd (put-other s.channels c.fd fd (some p) ne ∙ missing)
        ∙ sym (pollfd_of-missing s fd missing)
    | inr (q, e) ↦
        let t : Entry s fd q = a.entry fd q e in
        let other : q ≢ p = λ h. ne (sym t.own_fd ∙ ap (λ r. (s.heap r).fd) h) in
        let kept = put-other s.heap p q (record c { index = some (length s.pollfds) }) other in
        pollfd_of-found added fd q t.place (put-other s.channels c.fd fd (some p) ne ∙ e)
          (ap (λ x. x.index) kept ∙ t.indexed)
        ∙ get-append_left s.pollfds (new_pollfd c) t.place
            (get-bound s.pollfds t.place t.pollfd t.held)
        ∙ sym (pollfd_of-found s fd q t.place e t.indexed)
  ]
