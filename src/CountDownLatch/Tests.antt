-- ===== src/CountDownLatch/Tests.antt =====
-- muduo/base/CountDownLatch.cpp: the theorem at a latch with a count of 1.
use learn_muduo.Prelude.{ℕ, ◌<◌, ◌≤◌, ◌≡◌, refl, true, arith}
use learn_muduo.LogStream.{pos}
use learn_muduo.CountDownLatch.{
  CountDownLatch, init, wait, count_down, Run, start, next, waits, counts, passes_again,
}
use learn_muduo.CountDownLatch.Opening.{minus, run-opens}

-- One thread waited, and was let through by the call of `countDown`.
abbrev open_latch : CountDownLatch
open_latch = record { count = pos 0; waiting = 0; woken = 0 }

open_latch-run : Run (init (pos 1)) 1 1 open_latch
unfolding init wait count_down
open_latch-run =
    let one : 0 < 1 = omega arith in
    next (next (next start (waits refl)) counts) (passes_again one refl)

run-opens_example :
    (open_latch.count ≡ minus 1 1)
    × (1 < 1 → ◌≡◌ {A = ℕ} 1 0)
    × (1 ≤ 1 → (open_latch.waiting ≡ 0) × (wait open_latch ≡ (open_latch, true)))
run-opens_example = run-opens 1 open_latch-run
