-- ===== src/TcpServer.antt =====
-- muduo/net/TcpServer.h and TcpServer.cpp. Pointers to connections are numbers; the connections are in a
-- heap, each with its loop and its name. A method gives the server and its effects, in order, or `none`
-- where an assertion fails.
pub mod Names
pub mod System
pub mod Tracking
pub mod Steps
pub mod Accepts
pub mod Removal
pub mod Tests
use learn_muduo.Prelude.{
  ℕ, suc, ◌+◌, ◌*◌, ◌≤◌, Bool, true, false, not, List, [], ◌∷◌, ◌++◌, Option, none, some, map, ◌==◌,
  leb, if◌then◌else◌, ◌>>=◌, ◌>>◌, assert, codes, decimal, snprintf, lookup, insert, erase, length,
}
use learn_muduo.EPollPoller.{put}
use learn_muduo.TcpConnection.{TcpConnection}
use learn_muduo.TcpConnection
use learn_muduo.EventLoopThreadPool.{EventLoopThreadPool, get_next_loop}
use learn_muduo.EventLoopThreadPool
use learn_muduo.Acceptor.{Acceptor}

-- A connection with what its server gave it.
pub record Held : Type 0 where
  pub io_loop : ℕ
  pub name : List ℕ
  pub connection : TcpConnection

pub record TcpServer : Type 0 where
  pub heap : ℕ → Held
  pub loop : ℕ
  pub ip_port : List ℕ
  pub name : List ℕ
  pub acceptor : Acceptor
  pub thread_pool : EventLoopThreadPool
  pub has_write_complete : Bool
  pub started : Bool
  pub next_conn_id : ℕ
  pub connections : List (List ℕ × ℕ)

-- The constructor, with the heap that it is in and its acceptor, whose callback is set.
unfoldable pub init : (ℕ → Held) → ℕ → List ℕ → List ℕ → Acceptor → TcpServer
init heap loop ip_port name acceptor = record {
  heap = heap;
  loop = loop;
  ip_port = ip_port;
  name = name;
  acceptor = record acceptor { has_callback = true };
  thread_pool = EventLoopThreadPool.init loop;
  has_write_complete = false;
  started = false;
  next_conn_id = 1;
  connections = [];
}

-- What the server binds for a loop, with the pointer to the connection.
pub data Functor : Type 0 where
  listens : Functor
  establishes removes destroys : ℕ → Functor

-- A functor for `runInLoop` or `queueInLoop` of a loop.
pub data Effect : Type 0 where
  runs queues : ℕ → Functor → Effect

abbrev pub Stepped : Type 0
Stepped = Option (TcpServer × List Effect)

unfoldable pub set_write_complete_callback : TcpServer → TcpServer
set_write_complete_callback s = record s { has_write_complete = true }

unfoldable pub set_thread_num : TcpServer → ℕ → TcpServer
set_thread_num s num_threads = record s {
  thread_pool = EventLoopThreadPool.set_thread_num s.thread_pool num_threads;
}

-- `start`, with the loops that the threads start.
unfoldable pub start : TcpServer → (ℕ → ℕ) → Stepped
start s start_loop = if s.started then some (s, []) else (do
  thread_pool ← EventLoopThreadPool.start s.thread_pool start_loop
  assert (not s.acceptor.listening)
  some (record s { started = true; thread_pool = thread_pool }, runs s.loop listens ∷ []))

-- `buf` and `connName` in `newConnection`.
unfoldable pub conn_name : List ℕ → List ℕ → ℕ → List ℕ
conn_name name ip_port conn_id =
    name ++ snprintf 64 (codes "-" ++ (ip_port ++ (codes "#" ++ decimal conn_id)))

-- The pointer to the new connection is given.
unfoldable pub new_connection : TcpServer → ℕ → ℕ → Stepped
unfolding conn_name
new_connection s conn sockfd = do
  (io_loop, thread_pool) ← get_next_loop s.thread_pool
  let name = conn_name s.name s.ip_port s.next_conn_id
  let held : Held = record {
    io_loop = io_loop;
    name = name;
    connection = record (TcpConnection.init sockfd) { has_write_complete = s.has_write_complete };
  }
  some (
    record s {
      heap = put s.heap conn held;
      thread_pool = thread_pool;
      next_conn_id = suc s.next_conn_id;
      connections = insert name conn s.connections;
    },
    runs io_loop (establishes conn) ∷ [],
  )

unfoldable pub remove_connection : TcpServer → ℕ → List Effect
remove_connection s conn = runs s.loop (removes conn) ∷ []

abbrev pub is_found : Option ℕ → Bool
is_found none = false
is_found (some p) = true

-- The assertion is that `erase` removes one entry.
unfoldable pub remove_connection_in_loop : TcpServer → ℕ → Stepped
remove_connection_in_loop s conn = do
  let name = (s.heap conn).name
  assert (is_found (lookup name s.connections))
  some (
    record s { connections = erase name s.connections },
    queues (s.heap conn).io_loop (destroys conn) ∷ [],
  )

-- The destructor: each connection is destroyed in its loop.
unfoldable pub destroy_all : TcpServer → List (List ℕ × ℕ) → List Effect
destroy_all s [] = []
destroy_all s ((name, conn) ∷ items) =
    runs (s.heap conn).io_loop (destroys conn) ∷ destroy_all s items

unfoldable pub destroy : TcpServer → List Effect
unfolding destroy_all
destroy s = destroy_all s s.connections
