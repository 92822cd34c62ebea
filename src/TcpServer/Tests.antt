-- ===== src/TcpServer/Tests.antt =====
-- muduo/net/TcpServer.cpp: the theorems at a server with one connection that was closed.
use learn_muduo.Prelude.{ℕ, ◌<◌, ◌≡◌, refl, true, List, [], ◌∷◌, some, arith, codes, erase, insert}
use learn_muduo.EPollPoller.{put}
use learn_muduo.EventLoopThreadPool.{EventLoopThreadPool, get_next_loop}
use learn_muduo.EventLoopThreadPool
use learn_muduo.Acceptor.{Acceptor}
use learn_muduo.Acceptor
use learn_muduo.Channel.{enable_reading, tie, disable_all}
use learn_muduo.TcpConnection.{
  TcpConnection, connected, disconnected, connect_established, handle_close,
}
use learn_muduo.TcpConnection
use learn_muduo.TcpConnection.Run.{hangs_up, step}
use learn_muduo.TcpServer.{
  TcpServer, Held, listens, establishes, removes, destroys, queues, init, start, new_connection,
  remove_connection, remove_connection_in_loop, conn_name,
}
use learn_muduo.TcpServer.System.{
  System, Reachable, fresh, later, starts, accepts, establishes_now, acts, with_connection,
}
use learn_muduo.TcpServer.Tracking.{IsTracked, waits_for}
use learn_muduo.TcpServer.Removal.{reachable-IsTracked, remove_connection_in_loop-found}

abbrev no_connection : Held
unfolding TcpConnection.init
no_connection = record { io_loop = 0; name = []; connection = TcpConnection.init 0 }

abbrev acceptor : Acceptor
unfolding Acceptor.init
acceptor = Acceptor.init 3 4

abbrev ip_port : List ℕ
ip_port = codes "0.0.0.0:80"

abbrev new_server : TcpServer
unfolding init
new_server = init (λ p. no_connection) 0 ip_port (codes "web") acceptor

abbrev first : System
first = record { server = new_server; allocated = 0; waiting = [] }

first-Reachable : Reachable first
unfolding new_server
first-Reachable = fresh (λ p. no_connection) 0 ip_port (codes "web") acceptor (omega arith)

abbrev started_server : TcpServer
unfolding new_server
started_server = record new_server {
  started = true;
  thread_pool = record new_server.thread_pool { started = true };
}

started-Reachable :
    Reachable (record { server = started_server; allocated = 0; waiting = listens ∷ [] })
unfolding start EventLoopThreadPool.start started_server init acceptor EventLoopThreadPool.init
started-Reachable = later first-Reachable (starts (λ i. i) refl)

abbrev first_name : List ℕ
unfolding conn_name
first_name = conn_name (codes "web") ip_port 1

abbrev first_connection : TcpConnection
unfolding TcpConnection.init
first_connection = TcpConnection.init 9

abbrev accepted_server : TcpServer
unfolding started_server first_name first_connection
accepted_server = record started_server {
  heap =
      put started_server.heap 0
        (record { io_loop = 0; name = first_name; connection = first_connection });
  next_conn_id = 2;
  connections = (first_name, 0) ∷ [];
}

accepted-Reachable :
    Reachable
      (record { server = accepted_server; allocated = 1; waiting = listens ∷ establishes 0 ∷ [] })
unfolding new_connection accepted_server get_next_loop new_server init EventLoopThreadPool.init
    insert
accepted-Reachable = later started-Reachable (accepts 9 (omega arith) refl)

abbrev up_connection : TcpConnection
unfolding first_connection enable_reading tie
up_connection = record first_connection {
  state = connected;
  channel = enable_reading (tie first_connection.channel);
}

abbrev closed_connection : TcpConnection
unfolding up_connection disable_all
closed_connection = record up_connection {
  state = disconnected;
  channel = disable_all up_connection.channel;
}

up-Reachable : Reachable (record {
  server = with_connection accepted_server 0 up_connection;
  allocated = 1;
  waiting = listens ∷ [];
})
unfolding accepted_server connect_established up_connection
up-Reachable = later accepted-Reachable (establishes_now 0 (listens ∷ []) [] refl refl)

abbrev closed : System
unfolding accepted_server closed_connection
closed = record {
  server = with_connection (with_connection accepted_server 0 up_connection) 0 closed_connection;
  allocated = 1;
  waiting = listens ∷ removes 0 ∷ [];
}

closed-Reachable : Reachable closed
unfolding closed step handle_close up_connection remove_connection
closed-Reachable = later up-Reachable (acts 0 hangs_up (omega arith) refl refl)

reachable-IsTracked_example : IsTracked closed
reachable-IsTracked_example = reachable-IsTracked closed-Reachable

remove_connection_in_loop-found_example :
    (remove_connection_in_loop closed.server 0
      ≡ some (
        record closed.server {
          connections = erase (closed.server.heap 0).name closed.server.connections;
        },
        queues (closed.server.heap 0).io_loop (destroys 0) ∷ [],
      ))
    × (waits_for 0 closed.waiting ≡ 1)
    × ((closed.server.heap 0).connection.state ≡ disconnected)
unfolding closed
remove_connection_in_loop-found_example =
    let one : 0 < 1 = omega arith in
    remove_connection_in_loop-found {s = closed} 0 closed-Reachable one
