-- ===== src/TimerQueue/System.antt =====
-- muduo/net/TimerQueue.cpp: a queue as its loop drives it. A call of the users is one on the loop's thread,
-- where `runInLoop` makes it at once; a call of another thread is one that the loop makes later.
use learn_muduo.Prelude.{ℕ, ◌≡◌, ◌<◌, true, false, List, [], ◌∷◌, Option, none, some, ◌>>=◌}
use learn_muduo.EPollPoller.{put}
use learn_muduo.TimerQueue.{
  Entry, Timer, TimerQueue, Effect, add_timer_in_loop, cancel_in_loop, get_expired, handle_read,
  uintptr_max,
}
use learn_muduo.TimerQueue.Held.{IsFree}

-- `addTimer`, which makes a timer at an address, and `cancel`.
pub data Call : Type 0 where
  adds : ℕ → Timer → Call
  cancels : (timer sequence : ℕ) → Call

unfoldable pub call : Call → TimerQueue → Option (TimerQueue × List Effect)
call (adds p t) q = add_timer_in_loop (record q { heap = put q.heap p t }) p
call (cancels timer sequence) q = cancel_in_loop q timer sequence

unfoldable pub calls : List Call → TimerQueue → Option TimerQueue
unfolding call
calls [] q = some q
calls (c ∷ cs) q = do (q', effects) ← call c q; calls cs q'

-- One call, or the timer's event with the calls that the callbacks of the expired timers make.
pub data Event : Type 0 where
  calls_once : Call → Event
  reads : (now : ℕ) → List Call → Event

unfoldable pub step : Event → TimerQueue → Option (TimerQueue × List Effect)
unfolding call calls
step (calls_once c) q = call c q
step (reads now cs) q = handle_read (λ expired q'. calls cs q') q now

-- A new timer is at an address that no timer of the queue has, nor one that has just expired.
abbrev pub IsAllowed : List Entry → TimerQueue → Call → Type 0
IsAllowed held q (adds p t) = (p < uintptr_max) × IsFree p q.timers × IsFree p held
IsAllowed held q (cancels timer sequence) = Unit {0}

-- A condition on the queue behind a call.
abbrev pub After : {A : Type 0} → (A → Type 0) → Option A → Type 0
After P none = Unit {0}
After P (some a) = P a

-- Each of the calls is allowed where it is made.
unfoldable pub AreAllowed : List Entry → TimerQueue → List Call → Type 0
AreAllowed held q [] = Unit {0}
AreAllowed held q (c ∷ cs) = IsAllowed held q c × After (λ r. AreAllowed held r.0 cs) (call c q)

-- The queue while the callbacks of the expired timers run.
abbrev pub calling : TimerQueue → TimerQueue
calling q = record q { calling_expired_timers = true; canceling_timers = [] }

abbrev pub IsAllowedEvent : TimerQueue → Event → Type 0
IsAllowedEvent q (calls_once c) = IsAllowed [] q c
IsAllowedEvent q (reads now cs) = After (λ r. AreAllowed r.0 (calling r.1) cs) (get_expired q now)

abbrev pub new_queue : (ℕ → Timer) → TimerQueue
new_queue heap = record {
  heap = heap;
  timers = [];
  active_timers = [];
  calling_expired_timers = false;
  canceling_timers = [];
}

pub data Reachable : TimerQueue → Type 0 where
  starts : (heap : ℕ → Timer) → Reachable (new_queue heap)
  goes_on :
      {q q' : TimerQueue} {effects : List Effect}
      → Reachable q
      → (e : Event) → IsAllowedEvent q e
      → step e q ≡ some (q', effects)
      → Reachable q'
