-- ===== src/PollPoller/Swapped.antt =====
-- muduo/net/PollPoller.cpp: `removeChannel` where the last pollfd takes the place.
use mathlib.Core.Option.{some-injective}
use learn_muduo.Prelude.{
  ℕ, ◌-◌, ◌<◌, ◌≡◌, ◌≢◌, ◌∙◌, sym, ap, subst, inl, inr, Option, none, some, length, get_elem?, set,
  Option-cases, arith,
}
use learn_muduo.Channel.{Channel}
use learn_muduo.EPollPoller.{put}
use learn_muduo.EPollPoller.Agreement.{put-same, put-other}
use learn_muduo.TcpServer.Steps.{eq_or_ne}
use learn_muduo.PollPoller.{PollFd, PollPoller, fd_of, set_index, pop_back}
use learn_muduo.PollPoller.Lists.{
  length-set, get-set_same, get-set_other, get-bound, get-take, get-take_bound,
}
use learn_muduo.PollPoller.Slots.{
  Slot, Entry, Agrees, pollfd_of, pollfd_of-found, pollfd_of-missing,
}
use learn_muduo.PollPoller.Places.{elsewhere, away}

-- The last pollfd, of another channel, takes the place.
module _ (s : PollPoller) (p i : ℕ) (d : PollFd) (a : Agrees s)
    (at_i : get_elem? s.pollfds i ≡ some d) (own : fd_of d.fd ≡ (s.heap p).fd) (e : PollFd)
    (at_end : get_elem? s.pollfds (length s.pollfds - 1) ≡ some e)
    (middle : i ≢ length s.pollfds - 1) where
  abbrev fd : ℕ
  fd = (s.heap p).fd

  abbrev channels : ℕ → Option ℕ
  channels = put s.channels fd none

  unfoldable pub end_slot : Slot s (length s.pollfds - 1) e
  end_slot = a.slot (length s.pollfds - 1) e at_end

  unfoldable pub swapped : PollPoller
  unfolding end_slot
  swapped = record {
    heap = set_index s.heap end_slot.channel i;
    channels = channels;
    pollfds = pop_back (set (set s.pollfds i e) (length s.pollfds - 1) d);
  }

  inside : i < length s.pollfds
  inside = get-bound s.pollfds i d at_i

  -- What the new array has below its end.
  swapped-get :
      (j : ℕ)
      → j < length s.pollfds - 1
      → get_elem? swapped.pollfds j ≡ get_elem? (set s.pollfds i e) j
  unfolding swapped
  swapped-get j h =
      let same_length : length (set (set s.pollfds i e) (length s.pollfds - 1) d)
          ≡ length s.pollfds =
        length-set (set s.pollfds i e) (length s.pollfds - 1) d ∙ length-set s.pollfds i e in
      get-take (length (set (set s.pollfds i e) (length s.pollfds - 1) d) - 1)
        (set (set s.pollfds i e) (length s.pollfds - 1) d) j (omega (arith, h, same_length))
      ∙ get-set_other (set s.pollfds i e) (length s.pollfds - 1) j d (λ k. omega (arith, k, h))

  swapped-bound :
      (j : ℕ) (x : PollFd) → get_elem? swapped.pollfds j ≡ some x → j < length s.pollfds - 1
  unfolding swapped
  swapped-bound j x h =
      let same_length : length (set (set s.pollfds i e) (length s.pollfds - 1) d)
          ≡ length s.pollfds =
        length-set (set s.pollfds i e) (length s.pollfds - 1) d ∙ length-set s.pollfds i e in
      omega (
        arith,
        same_length,
        get-take_bound (length (set (set s.pollfds i e) (length s.pollfds - 1) d) - 1)
            (set (set s.pollfds i e) (length s.pollfds - 1) d) j x h,
      )

  swapped-place : get_elem? swapped.pollfds i ≡ some e
  swapped-place = swapped-get i (omega (arith, inside, middle)) ∙ get-set_same s.pollfds i e inside

  swapped-kept :
      (j : ℕ)
      → j < length s.pollfds - 1
      → j ≢ i
      → get_elem? swapped.pollfds j ≡ get_elem? s.pollfds j
  swapped-kept j h ne = swapped-get j h ∙ get-set_other s.pollfds i j e ne

  -- The channel at the end has another descriptor than the one that goes.
  pub end_fd : fd_of e.fd ≢ fd
  end_fd = elsewhere s p i d a at_i own (length s.pollfds - 1) e at_end (λ k. middle (sym k))

  moved_heap : ℕ → Channel
  unfolding end_slot
  moved_heap = set_index s.heap end_slot.channel i

  moved : moved_heap end_slot.channel ≡ record (s.heap end_slot.channel) { index = some i }
  unfolding moved_heap
  moved = put-same s.heap end_slot.channel (record (s.heap end_slot.channel) { index = some i })

  unmoved : (q : ℕ) → q ≢ end_slot.channel → moved_heap q ≡ s.heap q
  unfolding moved_heap
  unmoved q ne =
      put-other s.heap end_slot.channel q (record (s.heap end_slot.channel) { index = some i }) ne

  pub swapped-Slot : (j : ℕ) (x : PollFd) → get_elem? swapped.pollfds j ≡ some x → Slot swapped j x
  unfolding swapped moved_heap
  swapped-Slot j x h = elim (eq_or_ne j i) [
    | inl is ↦
        let same : e ≡ x =
          some-injective e x (sym swapped-place ∙ ap (get_elem? swapped.pollfds) (sym is) ∙ h) in
        subst (Slot swapped j) same (record {
          channel = end_slot.channel;
          listed = put-other s.channels fd (fd_of e.fd) none end_fd ∙ end_slot.listed;
          own_fd = ap (λ k. k.fd) moved ∙ end_slot.own_fd;
          indexed = ap (λ k. k.index) moved ∙ ap some (sym is);
          quiet = end_slot.quiet;
        })
    | inr other ↦
        let below = swapped-bound j x h in
        let at_j = sym (swapped-kept j below other) ∙ h in
        let t : Slot s j x = a.slot j x at_j in
        let not_end : t.channel ≢ end_slot.channel = λ k.
          let ends : j ≡ length s.pollfds - 1 =
            some-injective j (length s.pollfds - 1)
              (sym t.indexed ∙ ap (λ q. (s.heap q).index) k ∙ end_slot.indexed) in
          omega (arith, ends, below) in
        record {
          channel = t.channel;
          listed =
              put-other s.channels fd (fd_of x.fd) none
                (elsewhere s p i d a at_i own j x at_j other)
              ∙ t.listed;
          own_fd = ap (λ k. k.fd) (unmoved t.channel not_end) ∙ t.own_fd;
          indexed = ap (λ k. k.index) (unmoved t.channel not_end) ∙ t.indexed;
          quiet = t.quiet;
        }
  ]

  -- Where the pollfd of another descriptor is afterwards.
  record Stays (fd' q : ℕ) : Type 0 where
    place' : ℕ
    indexed' : (moved_heap q).index ≡ some place'
    own_fd' : (moved_heap q).fd ≡ fd'
    pollfd' : PollFd
    held' : get_elem? swapped.pollfds place' ≡ some pollfd'
    before' : pollfd_of s fd' ≡ some pollfd'
    same_fd' : fd_of pollfd'.fd ≡ fd'

  stays : (fd' q : ℕ) → fd' ≢ fd → s.channels fd' ≡ some q → Stays fd' q
  stays fd' q ne listed' =
      let t : Entry s fd' q = a.entry fd' q listed' in
      let found : pollfd_of s fd' ≡ some t.pollfd =
        pollfd_of-found s fd' q t.place listed' t.indexed ∙ t.held in
      elim (eq_or_ne q end_slot.channel) [
        | inl is ↦
            let at_place : t.place ≡ length s.pollfds - 1 =
              some-injective t.place (length s.pollfds - 1)
                (sym t.indexed ∙ ap (λ r. (s.heap r).index) is ∙ end_slot.indexed) in
            let same : e ≡ t.pollfd =
              some-injective e t.pollfd
                (sym at_end ∙ ap (get_elem? s.pollfds) (sym at_place) ∙ t.held) in
            record {
              place' = i;
              indexed' = ap (λ r. (moved_heap r).index) is ∙ ap (λ k. k.index) moved;
              own_fd' =
                  ap (λ r. (moved_heap r).fd) is
                  ∙ ap (λ k. k.fd) moved
                  ∙ ap (λ r. (s.heap r).fd) (sym is)
                  ∙ t.own_fd;
              pollfd' = t.pollfd;
              held' = swapped-place ∙ ap some same;
              before' = found;
              same_fd' = t.same_fd;
            }
        | inr other ↦
            let bound = get-bound s.pollfds t.place t.pollfd t.held in
            let not_end : t.place ≢ length s.pollfds - 1 = λ k.
              let same : e ≡ t.pollfd =
                some-injective e t.pollfd
                  (sym at_end ∙ ap (get_elem? s.pollfds) (sym k) ∙ t.held) in
              other (
                some-injective q end_slot.channel (
                  sym listed'
                  ∙ ap s.channels (sym t.same_fd ∙ ap (λ x. fd_of x.fd) (sym same))
                  ∙ end_slot.listed)) in
            record {
              place' = t.place;
              indexed' = ap (λ k. k.index) (unmoved q other) ∙ t.indexed;
              own_fd' = ap (λ k. k.fd) (unmoved q other) ∙ t.own_fd;
              pollfd' = t.pollfd;
              held' =
                  swapped-kept t.place (omega (arith, bound, not_end))
                    (away s p i d a at_i own fd' q ne t)
                  ∙ t.held;
              before' = found;
              same_fd' = t.same_fd;
            }
      ]

  pub swapped-Entry : (fd' q : ℕ) → swapped.channels fd' ≡ some q → Entry swapped fd' q
  unfolding swapped moved_heap
  swapped-Entry fd' q h = elim (eq_or_ne fd' fd) [
    | inl is ↦
        let bad : none ≡ some q = sym (put-same s.channels fd none) ∙ ap channels (sym is) ∙ h in cc
    | inr other ↦
        let t = stays fd' q other (sym (put-other s.channels fd fd' none other) ∙ h) in
        record {
          own_fd = t.own_fd';
          place = t.place';
          indexed = t.indexed';
          pollfd = t.pollfd';
          held = t.held';
          same_fd = t.same_fd';
        }
  ]

  pub swapped-others : (fd' : ℕ) → fd' ≢ fd → pollfd_of swapped fd' ≡ pollfd_of s fd'
  unfolding swapped moved_heap
  swapped-others fd' ne = elim (Option-cases (s.channels fd')) [
    | inl missing ↦
        pollfd_of-missing swapped fd' (put-other s.channels fd fd' none ne ∙ missing)
        ∙ sym (pollfd_of-missing s fd' missing)
    | inr (q, h) ↦
        let t = stays fd' q ne h in
        pollfd_of-found swapped fd' q t.place' (put-other s.channels fd fd' none ne ∙ h) t.indexed'
        ∙ t.held'
        ∙ sym t.before'
  ]
