-- ===== src/BoundedBlockingQueue.antt =====
-- muduo/base/BoundedBlockingQueue.h. The mutex makes each pass of a thread through a method one step:
-- from the entry, or from the end of a wait, to the return or the next wait. A thread that waits on a
-- condition is counted; `notify` wakes one of them, which then needs the mutex again.
pub mod Buffers
pub mod Passes
pub mod Progress
pub mod Tests
use learn_muduo.Prelude.{
  ℕ, suc, ◌+◌, ◌-◌, ◌<◌, ◌≡◌, Bool, true, false, not, List, [], ◌∷◌, ◌++◌, Option, none, some, ltb,
  if◌then◌else◌, ◌>>=◌, ◌>>◌, assert,
}
use learn_muduo.BoundedBlockingQueue.Buffers.{CircularBuffer}

-- The queue, and the threads in `notEmpty_.wait()` and `notFull_.wait()`, or woken up there.
pub record BoundedBlockingQueue (B : Type 0) : Type 0 where
  pub queue : B
  pub takers_waiting : ℕ
  pub takers_woken : ℕ
  pub putters_waiting : ℕ
  pub putters_woken : ℕ

module _ {A B : Type 0} (buffers : CircularBuffer A B) where
  unfoldable pub init : ℕ → BoundedBlockingQueue B
  init max_size = record {
    queue = buffers.with_capacity max_size;
    takers_waiting = 0;
    takers_woken = 0;
    putters_waiting = 0;
    putters_woken = 0;
  }

  -- `notEmpty_.notify()` and `notFull_.notify()`.
  unfoldable pub notify_not_empty : BoundedBlockingQueue B → BoundedBlockingQueue B
  notify_not_empty q =
      if ltb 0 q.takers_waiting
      then record q { takers_waiting = q.takers_waiting - 1; takers_woken = suc q.takers_woken }
      else q

  unfoldable pub notify_not_full : BoundedBlockingQueue B → BoundedBlockingQueue B
  notify_not_full q =
      if ltb 0 q.putters_waiting
      then record q { putters_waiting = q.putters_waiting - 1; putters_woken = suc q.putters_woken }
      else q

  -- A pass through `put`: the queue, and whether the element is in it; the thread waits otherwise.
  unfoldable pub put : A → BoundedBlockingQueue B → Option (BoundedBlockingQueue B × Bool)
  unfolding notify_not_empty
  put x q =
      if buffers.full q.queue
      then some (record q { putters_waiting = suc q.putters_waiting }, false)
      else (do
        assert (not (buffers.full q.queue))
        some (notify_not_empty (record q { queue = buffers.push_back q.queue x }), true))

  -- A pass through `take`: the queue, and the element, or none where the thread waits.
  unfoldable pub take : BoundedBlockingQueue B → Option (BoundedBlockingQueue B × Option A)
  unfolding notify_not_full
  take q =
      if buffers.empty q.queue
      then some (record q { takers_waiting = suc q.takers_waiting }, none)
      else (do
        assert (not (buffers.empty q.queue))
        front ← buffers.front q.queue
        some (notify_not_full (record q { queue = buffers.pop_front q.queue }), some front))

  unfoldable pub empty : BoundedBlockingQueue B → Bool
  empty q = buffers.empty q.queue

  unfoldable pub full : BoundedBlockingQueue B → Bool
  full q = buffers.full q.queue

  unfoldable pub size : BoundedBlockingQueue B → ℕ
  size q = buffers.size q.queue

  unfoldable pub capacity : BoundedBlockingQueue B → ℕ
  capacity q = buffers.capacity q.queue

  -- One step of some thread: it enters a method, or goes on behind a wait, or is woken up without a
  -- notification. The lists are what the step puts and takes.
  pub data Step (q : BoundedBlockingQueue B)
      : List A → List A → BoundedBlockingQueue B → Type 0 where
    puts : {q' : BoundedBlockingQueue B} (x : A) → put x q ≡ some (q', true) → Step q (x ∷ []) [] q'
    waits_to_put :
        {q' : BoundedBlockingQueue B} (x : A) → put x q ≡ some (q', false) → Step q [] [] q'
    puts_again :
        {q' : BoundedBlockingQueue B} (x : A)
        → 0 < q.putters_woken
        → put x (record q { putters_woken = q.putters_woken - 1 }) ≡ some (q', true)
        → Step q (x ∷ []) [] q'
    waits_to_put_again :
        {q' : BoundedBlockingQueue B} (x : A)
        → 0 < q.putters_woken
        → put x (record q { putters_woken = q.putters_woken - 1 }) ≡ some (q', false)
        → Step q [] [] q'
    takes :
        {q' : BoundedBlockingQueue B} (x : A) → take q ≡ some (q', some x) → Step q [] (x ∷ []) q'
    waits_to_take : {q' : BoundedBlockingQueue B} → take q ≡ some (q', none) → Step q [] [] q'
    takes_again :
        {q' : BoundedBlockingQueue B} (x : A)
        → 0 < q.takers_woken
        → take (record q { takers_woken = q.takers_woken - 1 }) ≡ some (q', some x)
        → Step q [] (x ∷ []) q'
    waits_to_take_again :
        {q' : BoundedBlockingQueue B}
        → 0 < q.takers_woken
        → take (record q { takers_woken = q.takers_woken - 1 }) ≡ some (q', none)
        → Step q [] [] q'
    putter_wakes :
        0 < q.putters_waiting
        → Step q [] [] (record q {
          putters_waiting = q.putters_waiting - 1;
          putters_woken = suc q.putters_woken;
        })
    taker_wakes :
        0 < q.takers_waiting
        → Step q [] []
            (record q { takers_waiting = q.takers_waiting - 1; takers_woken = suc q.takers_woken })

  -- Steps of any threads in any order.
  pub data Run (q : BoundedBlockingQueue B)
      : List A → List A → BoundedBlockingQueue B → Type 0 where
    start : Run q [] [] q
    next :
        {q' q'' : BoundedBlockingQueue B} {added taken added' taken' : List A}
        → Run q added taken q'
        → Step q' added' taken' q''
        → Run q (added ++ added') (taken ++ taken') q''
