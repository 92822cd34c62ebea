-- ===== src/PollPoller/Popped.antt =====
-- muduo/net/PollPoller.cpp: `removeChannel` of the channel at the end of the array.
use learn_muduo.Prelude.{
  ℕ, ◌-◌, ◌≡◌, ◌≢◌, ◌∙◌, sym, ap, inl, inr, Option, none, some, length, get_elem?, Option-cases,
  arith,
}
use learn_muduo.EPollPoller.{put}
use learn_muduo.EPollPoller.Agreement.{put-same, put-other}
use learn_muduo.TcpServer.Steps.{eq_or_ne}
use learn_muduo.PollPoller.{PollFd, PollPoller, fd_of, pop_back}
use learn_muduo.PollPoller.Lists.{get-bound, get-take, get-take_bound}
use learn_muduo.PollPoller.Slots.{
  Slot, Entry, Agrees, pollfd_of, pollfd_of-found, pollfd_of-missing,
}
use learn_muduo.PollPoller.Places.{elsewhere, away}

-- The channel's pollfd is the last one.
module _ (s : PollPoller) (p i : ℕ) (d : PollFd) (a : Agrees s)
    (at_i : get_elem? s.pollfds i ≡ some d) (own : fd_of d.fd ≡ (s.heap p).fd)
    (last : i ≡ length s.pollfds - 1) where
  abbrev fd : ℕ
  fd = (s.heap p).fd

  abbrev channels : ℕ → Option ℕ
  channels = put s.channels fd none

  abbrev pub popped : PollPoller
  popped = record s { channels = channels; pollfds = pop_back s.pollfds }

  pub popped-Slot : (j : ℕ) (e : PollFd) → get_elem? popped.pollfds j ≡ some e → Slot popped j e
  popped-Slot j e h =
      let below = get-take_bound (length s.pollfds - 1) s.pollfds j e h in
      let at_j = sym (get-take (length s.pollfds - 1) s.pollfds j below) ∙ h in
      let t : Slot s j e = a.slot j e at_j in
      record {
        channel = t.channel;
        listed =
            put-other s.channels fd (fd_of e.fd) none
              (elsewhere s p i d a at_i own j e at_j (λ k. omega (arith, k, last, below)))
            ∙ t.listed;
        own_fd = t.own_fd;
        indexed = t.indexed;
        quiet = t.quiet;
      }

  popped-held :
      (fd' q : ℕ)
      → fd' ≢ fd
      → (t : Entry s fd' q) → get_elem? popped.pollfds t.place ≡ some t.pollfd
  popped-held fd' q ne t =
      let other = away s p i d a at_i own fd' q ne t in
      let bound = get-bound s.pollfds t.place t.pollfd t.held in
      get-take (length s.pollfds - 1) s.pollfds t.place (omega (arith, other, bound, last)) ∙ t.held

  pub popped-Entry : (fd' q : ℕ) → popped.channels fd' ≡ some q → Entry popped fd' q
  popped-Entry fd' q e = elim (eq_or_ne fd' fd) [
    | inl is ↦
        let bad : none ≡ some q = sym (put-same s.channels fd none) ∙ ap channels (sym is) ∙ e in cc
    | inr other ↦
        let t : Entry s fd' q = a.entry fd' q (sym (put-other s.channels fd fd' none other) ∙ e) in
        record {
          own_fd = t.own_fd;
          place = t.place;
          indexed = t.indexed;
          pollfd = t.pollfd;
          held = popped-held fd' q other t;
          same_fd = t.same_fd;
        }
  ]

  pub popped-others : (fd' : ℕ) → fd' ≢ fd → pollfd_of popped fd' ≡ pollfd_of s fd'
  popped-others fd' ne = elim (Option-cases (s.channels fd')) [
    | inl missing ↦
        pollfd_of-missing popped fd' (put-other s.channels fd fd' none ne ∙ missing)
        ∙ sym (pollfd_of-missing s fd' missing)
    | inr (q, e) ↦
        let t : Entry s fd' q = a.entry fd' q e in
        pollfd_of-found popped fd' q t.place (put-other s.channels fd fd' none ne ∙ e) t.indexed
        ∙ popped-held fd' q ne t
        ∙ sym (pollfd_of-found s fd' q t.place e t.indexed ∙ t.held)
  ]
