-- ===== src/TimerQueue/Tests.antt =====
-- muduo/net/TimerQueue.cpp: the theorems at a queue of three timers.
use learn_muduo.Prelude.{
  ℕ, ◌+◌, ◌*◌, ◌≤◌, ◌<◌, ◌≡◌, ◌≢◌, refl, true, false, List, [], ◌∷◌, ◌++◌, some, arith, All,
}
use learn_muduo.TimerQueue.{Entry, Timer, TimerQueue, insert, get_expired, lt_entry, erase_active}
use learn_muduo.EPollPoller.{put}
use learn_muduo.TimerQueue.{Effect, resets_timerfd, cancel_in_loop, add_timer_in_loop, uintptr_max}
use learn_muduo.TimerQueue.Held.{IsTimed}
use learn_muduo.TimerQueue.System.{
  Call, adds, cancels, call, calls_once, reads, step, IsAllowedEvent, AreAllowed, new_queue,
  Reachable, starts, goes_on,
}
use learn_muduo.TimerQueue.Runs.{step-runs}
use learn_muduo.TimerQueue.Expiry.{IsKept, get_expired-due}

-- The timer at `p` expires at 10 times `p`.
abbrev timer_at : ℕ → Timer
timer_at p = record { expiration = 10 * p; interval = 5; repeat = true; sequence = p + 100 }

abbrev queue : TimerQueue
queue = record {
  heap = timer_at;
  timers = (10, 1) ∷ (20, 2) ∷ (30, 3) ∷ [];
  active_timers = (1, 101) ∷ (2, 102) ∷ (3, 103) ∷ [];
  calling_expired_timers = false;
  canceling_timers = [];
}

queue-IsKept : IsKept queue
unfolding lt_entry erase_active
queue-IsKept = record {
  ordered = ((refl, (refl, tt)), ((refl, tt), (tt, tt)));
  pointers = (omega arith, (omega arith, (omega arith, tt)));
  active_ordered = ((refl, (refl, tt)), ((refl, tt), (tt, tt)));
  matched = refl;
}

get_expired-due_example :
    (expired : List Entry) × (q' : TimerQueue) × (get_expired queue 20 ≡ some (expired, q'))
    × (expired ++ q'.timers ≡ queue.timers)
    × All (λ x. x.0 ≤ 20) expired
    × All (λ x. 20 < x.0) q'.timers
    × (q'.heap ≡ queue.heap)
    × IsKept q'
get_expired-due_example = get_expired-due queue 20 queue-IsKept

-- The queue before any call, the timer that is added, and the queue behind it.
abbrev no_timers : TimerQueue
no_timers = new_queue timer_at

abbrev one_timer : TimerQueue
one_timer = record (new_queue (put timer_at 4 (timer_at 4))) {
  timers = (40, 4) ∷ [];
  active_timers = (4, 104) ∷ [];
}

one_timer-Reachable : Reachable one_timer
one_timer-Reachable =
    let small : 4 < uintptr_max = omega arith in
    goes_on (starts timer_at) (calls_once (adds 4 (timer_at 4))) (small, tt, tt) added
  where
    added :
        step (calls_once (adds 4 (timer_at 4))) no_timers ≡ some (one_timer, resets_timerfd 40 ∷ [])
    added = unfold step in unfold call in unfold add_timer_in_loop in unfold insert in refl

-- The timer expires, and its callback cancels it and adds another one.
abbrev callback_calls : List Call
callback_calls = cancels 4 104 ∷ adds 5 (timer_at 5) ∷ []

callback_calls-Allowed : IsAllowedEvent one_timer (reads 45 callback_calls)
unfolding get_expired AreAllowed call cancel_in_loop add_timer_in_loop insert
callback_calls-Allowed =
    let small : 5 < uintptr_max = omega arith in
    let different : 4 ≢ 5 = omega arith in (tt, ((small, tt, (different, tt)), tt))

step-runs_example :
    (q' : TimerQueue) × (effects : List Effect) × (step (reads 45 callback_calls) one_timer
      ≡ some (q', effects))
    × IsKept q'
    × IsTimed q'.heap q'.timers
step-runs_example = step-runs one_timer-Reachable (reads 45 callback_calls) callback_calls-Allowed
