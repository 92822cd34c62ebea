-- ===== src/TcpServer/System.antt =====
-- muduo/net/TcpServer.cpp with muduo/net/TcpConnection.cpp: a server, its connections and the functors
-- that its loops have yet to run. The loops are threads of their own, so that any functor may run next.
use learn_muduo.Prelude.{ℕ, zero, suc, ◌^◌, ◌<◌, ◌≡◌, true, List, [], ◌∷◌, ◌++◌, some, length, ◌≤◌}
use learn_muduo.EPollPoller.{put}
use learn_muduo.TcpConnection.{TcpConnection, connect_established, connect_destroyed}
use learn_muduo.TcpConnection
use learn_muduo.TcpConnection.Run.{Call, step}
use learn_muduo.TcpConnection.Order.{closes}
use learn_muduo.TcpConnection.Notices.{is_between}
use learn_muduo.TcpServer.{
  TcpServer, Held, Functor, listens, establishes, removes, destroys, Effect, runs, queues, init,
  new_connection, remove_connection, remove_connection_in_loop, set_thread_num, start,
}
use learn_muduo.TcpServer.Names.{max_ip_port}
use learn_muduo.Acceptor.{Acceptor}

-- The first connection has the pointer 0, and each one the next pointer.
pub record System : Type 0 where
  pub server : TcpServer
  pub allocated : ℕ
  pub waiting : List Functor

-- The functors of effects.
abbrev pub functors : List Effect → List Functor
functors [] = []
functors (runs l f ∷ es) = f ∷ functors es
functors (queues l f ∷ es) = f ∷ functors es

-- The close callback of a connection is `removeConnection` of its server.
abbrev pub removals : TcpServer → ℕ → ℕ → List Functor
removals s conn zero = []
removals s conn (suc n) = functors (remove_connection s conn) ++ removals s conn n

-- A connection of the heap changes.
abbrev pub with_connection : TcpServer → ℕ → TcpConnection → TcpServer
with_connection s conn t = record s {
  heap = put s.heap conn (record (s.heap conn) { connection = t });
}

-- One step of some loop. The numbers of connections stay below the largest `int`.
pub data Step (s : System) : System → Type 0 where
  configures : (n : ℕ) → Step s (record s { server = set_thread_num s.server n })
  starts :
      {server : TcpServer} {effects : List Effect} (start_loop : ℕ → ℕ)
      → start s.server start_loop ≡ some (server, effects)
      → Step s (record s { server = server; waiting = s.waiting ++ functors effects })
  accepts :
      {server : TcpServer} {effects : List Effect} (sockfd : ℕ)
      → suc s.allocated < 2 ^ 31
      → new_connection s.server s.allocated sockfd ≡ some (server, effects)
      → Step s (record {
        server = server;
        allocated = suc s.allocated;
        waiting = s.waiting ++ functors effects;
      })
  listens_now :
      (before behind : List Functor)
      → s.waiting ≡ before ++ listens ∷ behind
      → Step s (record s { waiting = before ++ behind })
  establishes_now :
      {t : TcpConnection} {effects : List TcpConnection.Effect} (conn : ℕ)
      (before behind : List Functor)
      → s.waiting ≡ before ++ establishes conn ∷ behind
      → connect_established (s.server.heap conn).connection ≡ some (t, effects)
      → Step s (record s { server = with_connection s.server conn t; waiting = before ++ behind })
  -- Any call on a connection that its loop or its user makes.
  acts :
      {t : TcpConnection} {effects : List TcpConnection.Effect} (conn : ℕ) (c : Call)
      → conn < s.allocated
      → is_between c ≡ true
      → step c (s.server.heap conn).connection ≡ some (t, effects)
      → Step s (record s {
        server = with_connection s.server conn t;
        waiting = s.waiting ++ removals s.server conn (closes effects);
      })
  removes_now :
      {server : TcpServer} {effects : List Effect} (conn : ℕ) (before behind : List Functor)
      → s.waiting ≡ before ++ removes conn ∷ behind
      → remove_connection_in_loop s.server conn ≡ some (server, effects)
      → Step s (record s { server = server; waiting = (before ++ behind) ++ functors effects })
  destroys_now :
      {t : TcpConnection} {effects : List TcpConnection.Effect} (conn : ℕ)
      (before behind : List Functor)
      → s.waiting ≡ before ++ destroys conn ∷ behind
      → connect_destroyed (s.server.heap conn).connection ≡ some (t, effects)
      → Step s (record s { server = with_connection s.server conn t; waiting = before ++ behind })

-- What the steps lead to from a new server, whose address and port are no longer than they print.
pub data Reachable : System → Type 0 where
  fresh :
      (heap : ℕ → Held) (loop : ℕ) (ip_port name : List ℕ) (acceptor : Acceptor)
      → length ip_port ≤ max_ip_port
      → Reachable
          (record { server = init heap loop ip_port name acceptor; allocated = 0; waiting = [] })
  later : {s s' : System} → Reachable s → Step s s' → Reachable s'
