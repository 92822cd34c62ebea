-- ===== src/EventLoopThreadPool.antt =====
-- muduo/net/EventLoopThreadPool.h and EventLoopThreadPool.cpp. A loop is a number; the loops that the
-- threads start are given.
pub mod RoundRobin
pub mod Tests
use learn_muduo.Prelude.{
  ℕ, zero, suc, ◌+◌, ◌%◌, Bool, true, false, not, List, [], ◌∷◌, ◌++◌, Option, none, some, length,
  get_elem?, leb, ◌==◌, if◌then◌else◌, ◌>>=◌, ◌>>◌, assert,
}

pub record EventLoopThreadPool : Type 0 where
  pub base_loop : ℕ
  pub started : Bool
  pub num_threads : ℕ
  pub next : ℕ
  pub loops : List ℕ

unfoldable pub init : ℕ → EventLoopThreadPool
init base_loop = record {
  base_loop = base_loop;
  started = false;
  num_threads = 0;
  next = 0;
  loops = [];
}

unfoldable pub set_thread_num : EventLoopThreadPool → ℕ → EventLoopThreadPool
set_thread_num p num_threads = record p { num_threads = num_threads }

-- The loops of the threads `from`, …, `from + count - 1`, as `startLoop` gives them.
abbrev pub started_loops : (ℕ → ℕ) → ℕ → ℕ → List ℕ
started_loops start_loop from zero = []
started_loops start_loop from (suc count) =
    start_loop from ∷ started_loops start_loop (from + 1) count

unfoldable pub start : EventLoopThreadPool → (ℕ → ℕ) → Option EventLoopThreadPool
start p start_loop = do
  assert (not p.started)
  some (record p { started = true; loops = p.loops ++ started_loops start_loop 0 p.num_threads })

abbrev pub is_empty : List ℕ → Bool
is_empty [] = true
is_empty (x ∷ xs) = false

-- `none` also where the index is outside of the vector.
unfoldable pub get_next_loop : EventLoopThreadPool → Option (ℕ × EventLoopThreadPool)
get_next_loop p = do
  assert p.started
  if is_empty p.loops then some (p.base_loop, p) else (do
    loop ← get_elem? p.loops p.next
    let next = p.next + 1
    some (loop, record p { next = if leb (length p.loops) next then 0 else next }))

unfoldable pub get_loop_for_hash : EventLoopThreadPool → ℕ → Option ℕ
get_loop_for_hash p hash_code =
    if is_empty p.loops then some p.base_loop else get_elem? p.loops (hash_code % length p.loops)

unfoldable pub get_all_loops : EventLoopThreadPool → Option (List ℕ)
get_all_loops p = do assert p.started; some (if is_empty p.loops then p.base_loop ∷ [] else p.loops)
