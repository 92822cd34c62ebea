-- ===== src/TcpClient.antt =====
-- muduo/net/TcpClient.h and TcpClient.cpp. Pointers to connections are numbers. A method gives the client
-- and its effects in order, or `none` where an assertion fails.
pub mod System
pub mod Attempts
pub mod Keeping
pub mod Opening
pub mod Ending
pub mod Single
pub mod Tests
use learn_muduo.Prelude.{
  ℕ, suc, ◌+◌, Bool, true, false, ◌&&◌, List, [], ◌∷◌, ◌++◌, Option, none, some, map, ◌==◌,
  if◌then◌else◌, ◌>>=◌, ◌>>◌, assert, codes, decimal, snprintf,
}
use learn_muduo.EPollPoller.{put, is_channel}
use learn_muduo.Connector.{Connector, Errno}
use learn_muduo.Connector
use learn_muduo.TcpConnection.{TcpConnection, connect_established, shutdown, force_close}
use learn_muduo.TcpConnection

-- A connection with its name.
pub record Held : Type 0 where
  pub name : List ℕ
  pub connection : TcpConnection

pub record TcpClient : Type 0 where
  pub heap : ℕ → Held
  pub connector : Connector
  pub name : List ℕ
  pub has_write_complete : Bool
  pub retry : Bool
  pub connect_asked : Bool
  pub next_conn_id : ℕ
  pub connection : Option ℕ

-- What the client's calls do: those of the connector, those of a connection, and the functors that it
-- queues in the loop or runs after a second.
pub data Effect : Type 0 where
  of_connector : Connector.Effect → Effect
  of_connection : ℕ → TcpConnection.Effect → Effect
  queues_destroy resets_close_callback : ℕ → Effect
  removes_connector_later : Effect

abbrev pub Stepped : Type 0
Stepped = Option (TcpClient × List Effect)

unfoldable pub init : (ℕ → Held) → List ℕ → TcpClient
init heap name = record {
  heap = heap;
  connector = Connector.init;
  name = name;
  has_write_complete = false;
  retry = false;
  connect_asked = true;
  next_conn_id = 1;
  connection = none;
}

unfoldable pub enable_retry : TcpClient → TcpClient
enable_retry c = record c { retry = true }

unfoldable pub set_write_complete_callback : TcpClient → TcpClient
set_write_complete_callback c = record c { has_write_complete = true }

unfoldable pub connect : TcpClient → TcpClient × List Effect
connect c =
    let (connector, effects) = Connector.start c.connector in
    (record c { connect_asked = true; connector = connector }, map of_connector effects)

abbrev pub with_connection : TcpClient → ℕ → TcpConnection → TcpClient
with_connection c conn t = record c {
  heap = put c.heap conn (record (c.heap conn) { connection = t });
}

-- `connection_->shutdown()`.
abbrev pub shutdown_of : Option ℕ → Bool → TcpClient → TcpClient × List Effect
shutdown_of none in_loop c = (c, [])
shutdown_of (some conn) in_loop c =
    let (t, effects) = shutdown (c.heap conn).connection in_loop in
    (with_connection c conn t, map (of_connection conn) effects)

unfoldable pub disconnect : TcpClient → Bool → TcpClient × List Effect
disconnect c in_loop = shutdown_of c.connection in_loop (record c { connect_asked = false })

unfoldable pub stop : TcpClient → TcpClient × List Effect
stop c =
    let (connector, effects) = Connector.stop c.connector in
    (record c { connect_asked = false; connector = connector }, map of_connector effects)

unfoldable pub conn_name : List ℕ → List ℕ → ℕ → List ℕ
conn_name name ip_port conn_id =
    name ++ snprintf 32 (codes ":" ++ (ip_port ++ (codes "#" ++ decimal conn_id)))

-- The pointer to the new connection and the peer's address are given. The connection does not get the
-- client's callback for a complete write.
unfoldable pub new_connection : TcpClient → ℕ → List ℕ → ℕ → Stepped
unfolding conn_name
new_connection c conn peer sockfd = do
  let held : Held = record {
    name = conn_name c.name peer c.next_conn_id;
    connection = TcpConnection.init sockfd;
  }
  let c' = record c {
    heap = put c.heap conn held;
    next_conn_id = suc c.next_conn_id;
    connection = some conn;
  }
  (t, effects) ← connect_established held.connection
  some (with_connection c' conn t, map (of_connection conn) effects)

-- The socket and the answer of connect(2) are for a retry.
unfoldable pub remove_connection : TcpClient → ℕ → ℕ → Errno → Stepped
remove_connection c conn sockfd e = do
  assert (is_channel c.connection conn)
  let c' = record c { connection = none }
  if c'.retry && c'.connect_asked
      then (do
        (connector, effects) ← Connector.restart c'.connector sockfd e
        some (record c' { connector = connector }, queues_destroy conn ∷ map of_connector effects))
      else some (c', queues_destroy conn ∷ [])

-- The destructor; whether no one else holds the connection is given.
abbrev pub destroy_with : Option ℕ → Bool → TcpClient → TcpClient × List Effect
destroy_with (some conn) unique c =
    if unique
    then (let (t, effects) = force_close (c.heap conn).connection in
        (with_connection c conn t, resets_close_callback conn ∷ map (of_connection conn) effects))
    else (c, resets_close_callback conn ∷ [])
destroy_with none unique c =
    let (connector, effects) = Connector.stop c.connector in
    (record c { connector = connector }, map of_connector effects ++ removes_connector_later ∷ [])

unfoldable pub destroy : TcpClient → Bool → TcpClient × List Effect
destroy c unique = destroy_with c.connection unique c
