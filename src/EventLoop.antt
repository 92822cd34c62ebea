-- ===== src/EventLoop.antt =====
-- muduo/net/EventLoop.h and EventLoop.cpp. `wakeups` is the counter of the eventfd, which is readable
-- when it is positive. A functor is a value of any type, and a function gives the calls on the loop
-- that are made while it runs, by itself and by other threads. Another thread writes to the eventfd in a
-- step of its own behind its call, since it does not hold the mutex any more: `waking` counts the threads
-- in between.
pub mod Functors
pub mod Wakeups
pub mod Quit
pub mod Channels
pub mod Tests
use learn_muduo.Prelude.{
  ℕ, suc, ◌+◌, ◌-◌, ◌^◌, Bool, true, false, ◌&&◌, ◌||◌, not, List, [], ◌∷◌, ◌++◌, Option, none,
  some, length, ltb, ◌==◌, if◌then◌else◌, ◌>>=◌, ◌>>◌, assert,
}
use learn_muduo.Channel.{Channel, enable_reading}
use learn_muduo.Channel
use learn_muduo.EPollPoller.{EPollPoller, Ctl, is_channel, put}
use learn_muduo.EPollPoller

pub record EventLoop (F : Type 0) : Type 0 where
  pub looping : Bool
  pub quit : Bool
  pub event_handling : Bool
  pub calling_pending_functors : Bool
  pub iteration : ℕ
  pub poller : EPollPoller
  pub wakeup_channel : ℕ
  pub wakeups : ℕ
  pub waking : ℕ
  pub active_channels : List ℕ
  pub current_active_channel : Option ℕ
  pub pending_functors : List F

-- The largest value of the counter of an eventfd.
abbrev pub eventfd_max : ℕ
eventfd_max = 2 ^ 64 - 2

abbrev pub member : ℕ → List ℕ → Bool
member x [] = false
member x (y ∷ ys) = x == y || member x ys

module _ {F : Type 0} where
  -- The constructor: the channel of the eventfd is put in the heap, and asks for its events.
  unfoldable pub init : (ℕ → Channel) → ℕ → ℕ → Option (EventLoop F × Ctl)
  init heap wakeup_channel wakeup_fd = do
    let channel = enable_reading (Channel.init wakeup_fd)
    (poller, ctl) ←
        EPollPoller.update_channel (EPollPoller.init (put heap wakeup_channel channel))
          wakeup_channel
    some (
      record {
        looping = false;
        quit = false;
        event_handling = false;
        calling_pending_functors = false;
        iteration = 0;
        poller = poller;
        wakeup_channel = wakeup_channel;
        wakeups = 0;
        waking = 0;
        active_channels = [];
        current_active_channel = none;
        pending_functors = [];
      },
      ctl,
    )

  -- A write that would bring the counter past its largest value fails.
  unfoldable pub wakeup : EventLoop F → EventLoop F
  wakeup s = record s { wakeups = if ltb s.wakeups eventfd_max then suc s.wakeups else s.wakeups }

  -- `handleRead` of the eventfd: the read takes the whole counter.
  unfoldable pub handle_read : EventLoop F → EventLoop F
  handle_read s = record s { wakeups = 0 }

  -- The loop's thread writes at once, another thread in its next step.
  abbrev pub asks_wakeup : Bool → EventLoop F → EventLoop F
  asks_wakeup in_loop s = if in_loop then wakeup s else record s { waking = suc s.waking }

  -- The step of another thread that calls `wakeup` behind its call.
  unfoldable pub late_wakeup : EventLoop F → EventLoop F
  late_wakeup s = if ltb 0 s.waking then wakeup (record s { waking = s.waking - 1 }) else s

  -- The first argument tells whether the caller is in the loop's thread.
  unfoldable pub queue_in_loop : Bool → F → EventLoop F → EventLoop F
  unfolding wakeup
  queue_in_loop in_loop cb s =
      let s' = record s { pending_functors = s.pending_functors ++ cb ∷ [] } in
      if not in_loop || s'.calling_pending_functors then asks_wakeup in_loop s' else s'

  -- The loop, and the functors that ran at once.
  unfoldable pub run_in_loop : Bool → F → EventLoop F → EventLoop F × List F
  unfolding queue_in_loop
  run_in_loop in_loop cb s = if in_loop then (s, cb ∷ []) else (queue_in_loop in_loop cb s, [])

  unfoldable pub queue_size : EventLoop F → ℕ
  queue_size s = length s.pending_functors

  unfoldable pub quit_loop : Bool → EventLoop F → EventLoop F
  unfolding wakeup
  quit_loop in_loop s =
      let s' = record s { quit = true } in if in_loop then s' else asks_wakeup in_loop s'

  -- The call of a channel that leaves the loop: a loop that is handling events lets only the current
  -- channel go, or one that is not active.
  abbrev pub may_remove : EventLoop F → ℕ → Bool
  may_remove s channel =
      is_channel s.current_active_channel channel || not (member channel s.active_channels)

  unfoldable pub remove_channel : Bool → EventLoop F → ℕ → Option (EventLoop F × List Ctl)
  remove_channel in_loop s channel = do
    assert in_loop
    assert (not s.event_handling || may_remove s channel)
    (poller, ctls) ← EPollPoller.remove_channel s.poller channel
    some (record s { poller = poller }, ctls)

  unfoldable pub update_channel : Bool → EventLoop F → ℕ → Option (EventLoop F × Ctl)
  update_channel in_loop s channel = do
    assert in_loop
    (poller, ctl) ← EPollPoller.update_channel s.poller channel
    some (record s { poller = poller }, ctl)

-- A call on the loop, of its own thread or of another one, or the write of another thread behind one.
pub data Call (F : Type 0) : Type 0 where
  queues runs : Bool → F → Call F
  quits : Bool → Call F
  wakes : Call F

module _ {F : Type 0} where
  unfoldable pub call : Call F → EventLoop F → EventLoop F
  call (queues in_loop cb) s = queue_in_loop in_loop cb s
  call (runs in_loop cb) s = (run_in_loop in_loop cb s).0
  call (quits in_loop) s = quit_loop in_loop s
  call wakes s = late_wakeup s

  -- The calls in order; what a functor that runs at once calls comes behind its `runs`.
  unfoldable pub calls : List (Call F) → EventLoop F → EventLoop F
  calls [] s = s
  calls (c ∷ cs) s = calls cs (call c s)

-- One answer of the poller: what other threads called until it came, and the active channels.
pub record Poll (F : Type 0) : Type 0 where
  pub meanwhile : List (Call F)
  pub active : List ℕ

-- The calls while a functor runs, and while a channel other than the wake-up channel is handled.
module _ {F : Type 0} (does : F → List (Call F)) (handles : ℕ → List (Call F)) where
  unfoldable pub run_all : List F → EventLoop F → EventLoop F
  run_all [] s = s
  run_all (functor ∷ functors) s = run_all functors (calls (does functor) s)

  -- The loop, and the functors that it ran, in order.
  unfoldable pub do_pending_functors : EventLoop F → EventLoop F × List F
  unfolding run_all
  do_pending_functors s =
      let functors = s.pending_functors in
      let s' =
        run_all functors (record s { calling_pending_functors = true; pending_functors = [] }) in
      (record s' { calling_pending_functors = false }, functors)

  unfoldable pub handle_event : ℕ → EventLoop F → EventLoop F
  handle_event channel s =
      if channel == s.wakeup_channel then handle_read s else calls (handles channel) s

  unfoldable pub handle_all : List ℕ → EventLoop F → EventLoop F
  unfolding handle_event
  handle_all [] s = s
  handle_all (channel ∷ channels) s =
      handle_all channels
        (handle_event channel (record s { current_active_channel = some channel }))

  -- The events of the active channels.
  unfoldable pub handle_events : List ℕ → EventLoop F → EventLoop F
  unfolding handle_all
  handle_events active s =
      let s' = handle_all active (record s {
        active_channels = active;
        iteration = suc s.iteration;
        event_handling = true;
      }) in
      record s' { current_active_channel = none; event_handling = false }

  -- The body of the loop.
  unfoldable pub round : Poll F → EventLoop F → EventLoop F × List F
  unfolding handle_events do_pending_functors
  round p s = do_pending_functors (handle_events p.active (calls p.meanwhile s))

  -- `while (!quit_)` on the answers of the poller, with the functors that ran; `none` is a loop that
  -- waits for one more answer.
  unfoldable pub rounds : List (Poll F) → EventLoop F → Option (EventLoop F × List F)
  rounds [] s = if s.quit then some (s, []) else none
  rounds (p ∷ ps) s =
      let (s', ran) = round p s in
      let rest = rounds ps s' in
      if s.quit then some (s, []) else (do (s'', later) ← rest; some (s'', ran ++ later))

  unfoldable pub loop : List (Poll F) → EventLoop F → Option (EventLoop F × List F)
  unfolding rounds
  loop ps s = do
    assert (not s.looping)
    (s', ran) ← rounds ps (record s { looping = true; quit = false })
    some (record s' { looping = false }, ran)
