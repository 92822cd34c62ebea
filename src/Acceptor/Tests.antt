-- ===== src/Acceptor/Tests.antt =====
-- muduo/net/Acceptor.cpp: the theorem where descriptors run out.
use learn_muduo.Prelude.{◌+◌, ◌≡◌, List, [], ◌∷◌, none, some}
use learn_muduo.Acceptor.{Acceptor, init, accepted, too_many_files}
use learn_muduo.Acceptor.Sockets.{
  Answers, opened, released, idle, handle_reads, handle_reads-balance,
}

abbrev acceptor : Acceptor
unfolding init
acceptor = init 3 4

abbrev answers : List Answers
answers =
    record { answer = accepted 7; second = none; reopened = none }
    ∷ record { answer = too_many_files; second = some 4; reopened = some 4 }
    ∷ []

handle_reads-balance_example :
    idle 4 acceptor.idle_fd + opened 4 (handle_reads answers acceptor).1
    ≡ released 4 (handle_reads answers acceptor).1
      + idle 4 (handle_reads answers acceptor).0.idle_fd
handle_reads-balance_example = handle_reads-balance 4 answers acceptor
