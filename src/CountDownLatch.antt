-- ===== src/CountDownLatch.antt =====
-- muduo/base/CountDownLatch.h and CountDownLatch.cpp. A pass through a method, up to the return or the
-- wait, is one step. The count stays above the least `int`, where `--count_` is undefined.
pub mod Opening
pub mod Tests
use learn_muduo.Prelude.{ℕ, zero, suc, ◌+◌, ◌-◌, ◌<◌, ◌≡◌, Bool, true, false, if◌then◌else◌}
use learn_muduo.LogStream.{ℤ, pos, negsuc, is_zero}

-- The count, and the threads in `condition_.wait()`, or woken up there.
pub record CountDownLatch : Type 0 where
  pub count : ℤ
  pub waiting : ℕ
  pub woken : ℕ

unfoldable pub init : ℤ → CountDownLatch
init count = record { count = count; waiting = 0; woken = 0 }

abbrev pub is_positive : ℤ → Bool
is_positive (pos zero) = false
is_positive (pos (suc n)) = true
is_positive (negsuc n) = false

abbrev pub predecessor : ℤ → ℤ
predecessor (pos zero) = negsuc 0
predecessor (pos (suc n)) = pos n
predecessor (negsuc n) = negsuc (suc n)

-- A pass through `wait`: the latch, and whether the thread returns.
unfoldable pub wait : CountDownLatch → CountDownLatch × Bool
wait l = if is_positive l.count then (record l { waiting = suc l.waiting }, false) else (l, true)

unfoldable pub count_down : CountDownLatch → CountDownLatch
count_down l =
    let l' = record l { count = predecessor l.count } in
    if is_zero l'.count then record l' { waiting = 0; woken = l'.woken + l'.waiting } else l'

abbrev pub get_count : CountDownLatch → ℤ
get_count l = l.count

-- One step of some thread; the numbers are its calls of `countDown` and its returns from `wait`.
pub data Step (l : CountDownLatch) : ℕ → ℕ → CountDownLatch → Type 0 where
  counts : Step l 1 0 (count_down l)
  passes : {l' : CountDownLatch} → wait l ≡ (l', true) → Step l 0 1 l'
  waits : {l' : CountDownLatch} → wait l ≡ (l', false) → Step l 0 0 l'
  passes_again :
      {l' : CountDownLatch}
      → 0 < l.woken
      → wait (record l { woken = l.woken - 1 }) ≡ (l', true)
      → Step l 0 1 l'
  waits_again :
      {l' : CountDownLatch}
      → 0 < l.woken
      → wait (record l { woken = l.woken - 1 }) ≡ (l', false)
      → Step l 0 0 l'
  wakes : 0 < l.waiting → Step l 0 0 (record l { waiting = l.waiting - 1; woken = suc l.woken })

-- Steps of any threads in any order.
pub data Run (l : CountDownLatch) : ℕ → ℕ → CountDownLatch → Type 0 where
  start : Run l 0 0 l
  next :
      {l' l'' : CountDownLatch} {downs passed downs' passed' : ℕ}
      → Run l downs passed l'
      → Step l' downs' passed' l''
      → Run l (downs + downs') (passed + passed') l''
