-- ===== src/BlockingQueue.antt =====
-- muduo/base/BlockingQueue.h. The mutex makes each pass of a thread through a method one step: from the
-- entry, or from the end of a wait, to the return or the next wait.
pub mod Progress
pub mod Tests
use learn_muduo.Prelude.{
  ℕ, suc, ◌-◌, ◌<◌, ◌≡◌, Bool, true, false, not, List, [], ◌∷◌, ◌++◌, Option, none, some, ltb,
  length, if◌then◌else◌, ◌>>=◌, ◌>>◌, assert,
}

-- The queue, and the threads in `notEmpty_.wait()`, or woken up there.
pub record BlockingQueue (A : Type 0) : Type 0 where
  pub queue : List A
  pub waiting : ℕ
  pub woken : ℕ

module _ {A : Type 0} where
  unfoldable pub init : BlockingQueue A
  init = record { queue = []; waiting = 0; woken = 0 }

  -- `notEmpty_.notify()`.
  unfoldable pub notify : BlockingQueue A → BlockingQueue A
  notify q =
      if ltb 0 q.waiting then record q { waiting = q.waiting - 1; woken = suc q.woken } else q

  unfoldable pub put : A → BlockingQueue A → BlockingQueue A
  unfolding notify
  put x q = notify (record q { queue = q.queue ++ x ∷ [] })

  abbrev pub is_empty : List A → Bool
  is_empty [] = true
  is_empty (x ∷ xs) = false

  -- `front` and `pop_front` of a deque that is not empty.
  abbrev pub pop_front : List A → Option (A × List A)
  pop_front [] = none
  pop_front (x ∷ xs) = some (x, xs)

  -- A pass through `take`: the queue, and the element, or none where the thread waits.
  unfoldable pub take : BlockingQueue A → Option (BlockingQueue A × Option A)
  take q = if is_empty q.queue then some (record q { waiting = suc q.waiting }, none) else (do
    assert (not (is_empty q.queue))
    (front, rest) ← pop_front q.queue
    some (record q { queue = rest }, some front))

  abbrev pub size : BlockingQueue A → ℕ
  size q = length q.queue

  -- One step of some thread; the lists are what it puts and takes.
  pub data Step (q : BlockingQueue A) : List A → List A → BlockingQueue A → Type 0 where
    puts : (x : A) → Step q (x ∷ []) [] (put x q)
    takes : {q' : BlockingQueue A} (x : A) → take q ≡ some (q', some x) → Step q [] (x ∷ []) q'
    waits : {q' : BlockingQueue A} → take q ≡ some (q', none) → Step q [] [] q'
    takes_again :
        {q' : BlockingQueue A} (x : A)
        → 0 < q.woken
        → take (record q { woken = q.woken - 1 }) ≡ some (q', some x)
        → Step q [] (x ∷ []) q'
    waits_again :
        {q' : BlockingQueue A}
        → 0 < q.woken
        → take (record q { woken = q.woken - 1 }) ≡ some (q', none)
        → Step q [] [] q'
    wakes : 0 < q.waiting → Step q [] [] (record q { waiting = q.waiting - 1; woken = suc q.woken })

  -- Steps of any threads in any order.
  pub data Run (q : BlockingQueue A) : List A → List A → BlockingQueue A → Type 0 where
    start : Run q [] [] q
    next :
        {q' q'' : BlockingQueue A} {added taken added' taken' : List A}
        → Run q added taken q'
        → Step q' added' taken' q''
        → Run q (added ++ added') (taken ++ taken') q''
