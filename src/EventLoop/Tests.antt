-- ===== src/EventLoop/Tests.antt =====
-- muduo/net/EventLoop.cpp: the theorems at a loop whose functors are numbers.
use learn_muduo.Prelude.{
  ℕ, ◌≡◌, ◌<◌, ◌+◌, refl, true, false, List, [], ◌∷◌, ◌++◌, none, some, arith, ltb, if◌then◌else◌,
}
use learn_muduo.EPollPoller.Tests.{poller}
use learn_muduo.EventLoop.{
  EventLoop, Call, queues, quits, wakes, Poll, call, calls, queue_in_loop, late_wakeup, wakeup,
  quit_loop, handle_read, round, rounds, loop,
}
use learn_muduo.EventLoop.Functors.{queued_over, loop-in_order}
use learn_muduo.EventLoop.Wakeups.{start, next, waiting-IsDue}
use learn_muduo.EventLoop.Quit.{rounds-quit}

-- A functor below 10 queues the one that is 10 above it; the functor 12 ends the loop.
abbrev does : ℕ → List (Call ℕ)
does f = if ltb f 10 then queues true (f + 10) ∷ [] else if ltb f 12 then [] else quits true ∷ []

-- The channel 7 queues the functor 2.
abbrev handles : ℕ → List (Call ℕ)
handles c = queues true 2 ∷ []

abbrev fresh_loop : EventLoop ℕ
fresh_loop = record {
  looping = false;
  quit = false;
  event_handling = false;
  calling_pending_functors = false;
  iteration = 0;
  poller = poller;
  wakeup_channel = 5;
  wakeups = 0;
  waking = 0;
  active_channels = [];
  current_active_channel = none;
  pending_functors = [];
}

-- Another thread queues the functor 1, and wakes the loop up.
abbrev first_poll : Poll ℕ
first_poll = record { meanwhile = queues false 1 ∷ wakes ∷ []; active = 5 ∷ 7 ∷ [] }

abbrev second_poll : Poll ℕ
second_poll = record { meanwhile = []; active = 5 ∷ [] }

abbrev polls : List (Poll ℕ)
polls = first_poll ∷ second_poll ∷ []

abbrev last_loop : EventLoop ℕ
last_loop = record fresh_loop { quit = true; iteration = 2; active_channels = 5 ∷ [] }

polls_loop : loop does handles polls fresh_loop ≡ some (last_loop, 1 ∷ 2 ∷ 11 ∷ 12 ∷ [])
unfolding loop round calls call late_wakeup wakeup queue_in_loop handle_read quit_loop
polls_loop = refl

loop-in_order_example :
    (1 ∷ 2 ∷ 11 ∷ 12 ∷ []) ++ last_loop.pending_functors
    ≡ fresh_loop.pending_functors
      ++ queued_over does handles polls (record fresh_loop { looping = true; quit = false })
loop-in_order_example =
    loop-in_order does handles polls fresh_loop last_loop (1 ∷ 2 ∷ 11 ∷ 12 ∷ []) polls_loop

waiting-IsDue_example :
    0
    < (calls (queues false 3 ∷ []) (round does handles first_poll fresh_loop).0).wakeups
      + (calls (queues false 3 ∷ []) (round does handles first_poll fresh_loop).0).waking
unfolding round calls call late_wakeup wakeup queue_in_loop handle_read
waiting-IsDue_example =
    let more : 0 < 3 = omega arith in
    waiting-IsDue does handles {s = fresh_loop} (queues false 3 ∷ []) (next start refl first_poll)
      (λ some_pending. absurd (omega (arith, some_pending))) (refl, tt) more

rounds-quit_example :
    rounds does handles (second_poll ∷ []) (round does handles first_poll fresh_loop).0
    ≡ some (round does handles second_poll (round does handles first_poll fresh_loop).0)
unfolding round calls call late_wakeup wakeup queue_in_loop handle_read
rounds-quit_example =
    rounds-quit does handles second_poll [] (round does handles first_poll fresh_loop).0 refl refl
