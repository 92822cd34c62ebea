-- ===== src/EventLoopThreadPool/Tests.antt =====
-- muduo/net/EventLoopThreadPool.cpp: the theorem at a pool of three threads.
use learn_muduo.Prelude.{◌≡◌, refl, true, [], ◌∷◌, ◌++◌, some, arith, take, drop, length}
use learn_muduo.EventLoopThreadPool.{EventLoopThreadPool}
use learn_muduo.EventLoopThreadPool.RoundRobin.{takes, takes-round}

abbrev three : EventLoopThreadPool
three = record {
  base_loop = 0;
  started = true;
  num_threads = 3;
  next = 2;
  loops = 11 ∷ 12 ∷ 13 ∷ [];
}

takes-round_example :
    takes (length three.loops) three
    ≡ some (drop three.next three.loops ++ take three.next three.loops, three)
takes-round_example = takes-round three (record { on = refl; inside = omega arith })
