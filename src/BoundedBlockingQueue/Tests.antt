-- ===== src/BoundedBlockingQueue/Tests.antt =====
-- muduo/base/BoundedBlockingQueue.h: the theorems at a queue for two elements, over lists.
use learn_muduo.Prelude.{
  ℕ, ◌≤◌, ◌≡◌, refl, ap, List, [], ◌∷◌, ◌++◌, Option, none, some, length, ◌==◌, if◌then◌else◌,
}
use learn_muduo.BoundedBlockingQueue.Buffers.{CircularBuffer, Laws}
use learn_muduo.BoundedBlockingQueue.{
  BoundedBlockingQueue, init, put, take, notify_not_empty, Run, start, next, waits_to_take, puts,
}
use learn_muduo.BoundedBlockingQueue.Passes.{content}
use learn_muduo.BoundedBlockingQueue.Progress.{run-in_order}

-- A buffer is a capacity and a list.
abbrev first : List ℕ → Option ℕ
first [] = none
first (x ∷ xs) = some x

abbrev rest : List ℕ → List ℕ
rest [] = []
rest (x ∷ xs) = xs

abbrev list_buffers : CircularBuffer ℕ (ℕ × List ℕ)
list_buffers = record {
  with_capacity = λ n. (n, []);
  capacity = λ b. b.0;
  size = λ b. length b.1;
  empty = λ b. length b.1 == 0;
  full = λ b. length b.1 == b.0;
  push_back = λ b x. (b.0, if length b.1 == b.0 then rest b.1 ++ x ∷ [] else b.1 ++ x ∷ []);
  front = λ b. first b.1;
  pop_front = λ b. (b.0, rest b.1);
}

list_buffers-Laws : Laws list_buffers
list_buffers-Laws = record {
  elements = λ b. b.1;
  elements-with_capacity = λ n. refl;
  capacity-with_capacity = λ n. refl;
  size-elements = λ b. refl;
  empty-elements = λ b. refl;
  full-elements = λ b. refl;
  elements-push_back = λ b x room. ap (λ t. if t then rest b.1 ++ x ∷ [] else b.1 ++ x ∷ []) room;
  capacity-push_back = λ b x. refl;
  front-elements = λ b x xs e. ap first e;
  elements-pop_front = λ b x xs e. ap rest e;
  capacity-pop_front = λ b. refl;
}

-- Two threads wait for an element, and one is woken up by the element that a third one puts.
abbrev last_queue : BoundedBlockingQueue (ℕ × List ℕ)
last_queue = record {
  queue = (2, 7 ∷ []);
  takers_waiting = 1;
  takers_woken = 1;
  putters_waiting = 0;
  putters_woken = 0;
}

last_queue-run : Run list_buffers (init list_buffers 2) (7 ∷ []) [] last_queue
unfolding init put take notify_not_empty
last_queue-run = next (next (next start (waits_to_take refl)) (waits_to_take refl)) (puts 7 refl)

abbrev elements : List ℕ
unfolding list_buffers-Laws
elements = content list_buffers list_buffers-Laws last_queue

run-in_order_example : (7 ∷ [] ≡ [] ++ elements) × (length elements ≤ 2)
unfolding elements
run-in_order_example = run-in_order list_buffers list_buffers-Laws last_queue-run
