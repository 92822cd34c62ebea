-- ===== src/BlockingQueue/Tests.antt =====
-- muduo/base/BlockingQueue.h: the theorem at a queue with one element and two takers.
use learn_muduo.Prelude.{ℕ, ◌<◌, ◌≡◌, refl, List, [], ◌∷◌, ◌++◌, some, length}
use learn_muduo.BlockingQueue.{BlockingQueue, init, put, take, Run, start, next, puts, waits}
use learn_muduo.BlockingQueue.Progress.{passes-in_order}

abbrev seven : List ℕ
seven = 7 ∷ []

abbrev last_queue : BlockingQueue ℕ
last_queue = record { queue = seven; waiting = 1; woken = 1 }

last_queue-run : Run init seven [] last_queue
unfolding init put take
last_queue-run = next (next (next start (waits refl)) (waits refl)) (puts 7)

passes-in_order_example :
    (seven ≡ [] ++ seven)
    × (0 < 1
        → 0 < length seven
        → (x : ℕ) × (q' : BlockingQueue ℕ) × (0 < 1)
          × (take (record last_queue { woken = 0 }) ≡ some (q', some x)))
passes-in_order_example = passes-in_order last_queue-run
