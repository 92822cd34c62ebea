-- ===== src/PollPoller/Remove.antt =====
-- muduo/net/PollPoller.cpp: `removeChannel`.
use mathlib.Core.Option.{some-injective}
use learn_muduo.Prelude.{
  ℕ, ◌-◌, ◌≡◌, ◌≢◌, ◌∙◌, refl, sym, ap, inl, inr, true, none, some, length, get_elem?, ◌==◌, ==_iff,
  eq→==, ne→==, arith,
}
use learn_muduo.Channel.{is_none_event}
use learn_muduo.EPollPoller.Agreement.{put-same, put-other}
use learn_muduo.TcpServer.Steps.{eq_or_ne}
use learn_muduo.PollPoller.{PollFd, PollPoller, fd_of, is_ignored, remove_channel}
use learn_muduo.PollPoller.Lists.{get-append_last, get-bound, get-inside}
use learn_muduo.PollPoller.Slots.{Entry, Agrees, pollfd_of}
use learn_muduo.PollPoller.{update_channel, update_at, new_pollfd}
use learn_muduo.PollPoller.Added.{added, added-made}
use learn_muduo.PollPoller.Popped.{popped, popped-Slot, popped-Entry, popped-others}
use learn_muduo.PollPoller.Swapped.{
  swapped, end_slot, end_fd, swapped-Slot, swapped-Entry, swapped-others,
}

-- What `removeChannel` leaves.
pub record Vacates (s : PollPoller) (p : ℕ) : Type 0 where
  pub after : PollPoller
  pub made : remove_channel s p ≡ some after
  pub agrees : Agrees after
  pub gone : after.channels (s.heap p).fd ≡ none
  pub others : (fd : ℕ) → fd ≢ (s.heap p).fd → pollfd_of after fd ≡ pollfd_of s fd

module _ (s : PollPoller) (p i : ℕ) (d : PollFd) (a : Agrees s)
    (listed : s.channels (s.heap p).fd ≡ some p) (known : (s.heap p).index ≡ some i)
    (at_i : get_elem? s.pollfds i ≡ some d) (own : fd_of d.fd ≡ (s.heap p).fd)
    (idle : is_none_event (s.heap p) ≡ true) (ignored : is_ignored d.fd ≡ true) where
  no_events : (d.events == (s.heap p).events) ≡ true
  unfolding is_none_event
  no_events =
      eq→== d.events (s.heap p).events
        ((a.slot i d at_i).quiet ignored ∙ sym ((==_iff (s.heap p).events 0).0 idle))

  ends : i ≡ length s.pollfds - 1 → Vacates s p
  ends last = record {
    after = popped s p i d a at_i own last;
    made =
        unfold remove_channel in
        rw
          (
            listed,
            eq→== p p refl,
            idle,
            known,
            at_i,
            ignored,
            eq→== (fd_of d.fd) (s.heap p).fd own,
            no_events,
            eq→== i (length s.pollfds - 1) last,
          )
          refl;
    agrees = record {
      slot = popped-Slot s p i d a at_i own last;
      entry = popped-Entry s p i d a at_i own last;
    };
    gone = put-same s.channels (s.heap p).fd none;
    others = popped-others s p i d a at_i own last;
  }

  moves : i ≢ length s.pollfds - 1 → Vacates s p
  moves middle =
      let bound = get-bound s.pollfds i d at_i in
      let (e, at_end) = get-inside s.pollfds (length s.pollfds - 1) (omega (arith, bound)) in
      let q = end_slot s p i d a at_i own e at_end middle in
      record {
        after = swapped s p i d a at_i own e at_end middle;
        made =
            unfold remove_channel swapped in
            rw
              (
                listed,
                eq→== p p refl,
                idle,
                known,
                at_i,
                ignored,
                eq→== (fd_of d.fd) (s.heap p).fd own,
                no_events,
                ne→== i (length s.pollfds - 1) middle,
                at_end,
                put-other s.channels (s.heap p).fd (fd_of e.fd) none
                      (end_fd s p i d a at_i own e at_end middle)
                    ∙ q.listed,
              )
              refl;
        agrees = record {
          slot = swapped-Slot s p i d a at_i own e at_end middle;
          entry = swapped-Entry s p i d a at_i own e at_end middle;
        };
        gone = unfold swapped in put-same s.channels (s.heap p).fd none;
        others = swapped-others s p i d a at_i own e at_end middle;
      }

-- On a poller whose map, indices and array agree, `removeChannel` succeeds on a channel of the map that
-- has no events and whose pollfd poll(2) ignores: its descriptor leaves the map, the pollfds of all
-- other descriptors stay, also that of the pollfd that takes its place, and map, indices and array
-- agree again.
pub remove_channel-Vacates :
    (s : PollPoller) (p i : ℕ) (d : PollFd)
    → Agrees s
    → s.channels (s.heap p).fd ≡ some p
    → (s.heap p).index ≡ some i
    → get_elem? s.pollfds i ≡ some d
    → is_none_event (s.heap p) ≡ true
    → is_ignored d.fd ≡ true
    → Vacates s p
remove_channel-Vacates s p i d a listed known at_i idle ignored =
    let t : Entry s (s.heap p).fd p = a.entry (s.heap p).fd p listed in
    let place : t.place ≡ i = some-injective t.place i (sym t.indexed ∙ known) in
    let same : t.pollfd ≡ d =
      some-injective t.pollfd d (sym t.held ∙ ap (get_elem? s.pollfds) place ∙ at_i) in
    let own : fd_of d.fd ≡ (s.heap p).fd = ap (λ x. fd_of x.fd) (sym same) ∙ t.same_fd in
    elim (eq_or_ne i (length s.pollfds - 1)) [
      | inl last ↦ ends s p i d a listed known at_i own idle ignored last
      | inr middle ↦ moves s p i d a listed known at_i own idle ignored middle
    ]

-- Where a new channel without events is updated, its pollfd is not ignored, and `removeChannel` fails
-- its assertion behind it, on any poller whose map, indices and array agree.
pub remove_channel-unwatched :
    (s : PollPoller) (p : ℕ)
    → Agrees s
    → (s.heap p).index ≡ none
    → s.channels (s.heap p).fd ≡ none
    → is_none_event (s.heap p) ≡ true
    → (s' : PollPoller) × (update_channel s p ≡ some s') × (remove_channel s' p ≡ none)
remove_channel-unwatched s p a fresh free idle =
    let c = s.heap p in
    let n = length s.pollfds in
    (
      added s p a fresh free,
      unfold update_channel in ap (update_at s p) fresh ∙ added-made s p a fresh free,
      unfold remove_channel added is_none_event in
          rw
            (
              put-same s.heap p (record c { index = some n }),
              put-same s.channels c.fd (some p),
              eq→== p p refl,
              none_of idle,
              get-append_last s.pollfds (new_pollfd c),
            )
            refl,
    )
  where
    none_of : is_none_event (s.heap p) ≡ true → ((s.heap p).events == 0) ≡ true
    none_of e = unfold is_none_event in e
