-- ===== src/TcpClient/System.antt =====
-- muduo/net/TcpClient.cpp with muduo/net/Connector.cpp and muduo/net/TcpConnection.cpp: a client, its
-- connector and its connections, all in one loop.
use learn_muduo.Prelude.{ℕ, suc, ◌<◌, ◌≡◌, Bool, true, List, [], ◌∷◌, ◌++◌, some}
use learn_muduo.Connector.{Connector, Errno}
use learn_muduo.Connector
use learn_muduo.Connector.Sockets
use learn_muduo.TcpConnection.{TcpConnection, connect_destroyed}
use learn_muduo.TcpConnection
use learn_muduo.TcpConnection.Run.{Call, step}
use learn_muduo.TcpConnection.Order.{closes}
use learn_muduo.TcpConnection.Notices.{is_between}
use learn_muduo.TcpClient.{
  TcpClient, Held, Effect, init, enable_retry, connect, disconnect, stop, with_connection,
  new_connection, remove_connection,
}
use learn_muduo.TcpClient.Attempts.{passed, is_own}

-- The first connection has the pointer 0, and each one the next pointer; `waiting` are the connections
-- that the loop has yet to destroy.
pub record System : Type 0 where
  pub client : TcpClient
  pub allocated : ℕ
  pub waiting : List ℕ

-- One step of the loop or of a user. The connector's callback is `newConnection`, and the close callback
-- of a connection is `removeConnection`.
pub data Step (s : System) : System → Type 0 where
  enables_retry : Step s (record s { client = enable_retry s.client })
  connects : Step s (record s { client = (connect s.client).0 })
  disconnects : (in_loop : Bool) → Step s (record s { client = (disconnect s.client in_loop).0 })
  stops : Step s (record s { client = (stop s.client).0 })
  attempts :
      {connector : Connector} {effects : List Connector.Effect} (c : Connector.Sockets.Call)
      → is_own c ≡ true
      → Connector.Sockets.step c s.client.connector ≡ some (connector, effects)
      → passed effects ≡ 0
      → Step s (record s { client = record s.client { connector = connector } })
  succeeds :
      {connector : Connector} {effects : List Connector.Effect} {client : TcpClient}
      {made : List Effect} (c : Connector.Sockets.Call) (peer : List ℕ) (sockfd : ℕ)
      → is_own c ≡ true
      → Connector.Sockets.step c s.client.connector ≡ some (connector, effects)
      → 0 < passed effects
      → new_connection (record s.client { connector = connector }) s.allocated peer sockfd
        ≡ some (client, made)
      → Step s (record s { client = client; allocated = suc s.allocated })
  acts :
      {t : TcpConnection} {effects : List TcpConnection.Effect} (conn : ℕ) (c : Call)
      → conn < s.allocated
      → is_between c ≡ true
      → step c (s.client.heap conn).connection ≡ some (t, effects)
      → closes effects ≡ 0
      → Step s (record s { client = with_connection s.client conn t })
  ends :
      {t : TcpConnection} {effects : List TcpConnection.Effect} {client : TcpClient}
      {made : List Effect} (conn : ℕ) (c : Call) (sockfd : ℕ) (e : Errno)
      → conn < s.allocated
      → is_between c ≡ true
      → step c (s.client.heap conn).connection ≡ some (t, effects)
      → 0 < closes effects
      → remove_connection (with_connection s.client conn t) conn sockfd e ≡ some (client, made)
      → Step s (record s { client = client; waiting = s.waiting ++ conn ∷ [] })
  destroys_now :
      {t : TcpConnection} {effects : List TcpConnection.Effect} (conn : ℕ) (before behind : List ℕ)
      → s.waiting ≡ before ++ conn ∷ behind
      → connect_destroyed (s.client.heap conn).connection ≡ some (t, effects)
      → Step s (record s { client = with_connection s.client conn t; waiting = before ++ behind })

-- What the steps lead to from a new client.
pub data Reachable : System → Type 0 where
  fresh :
      (heap : ℕ → Held) (name : List ℕ)
      → Reachable (record { client = init heap name; allocated = 0; waiting = [] })
  later : {s s' : System} → Reachable s → Step s s' → Reachable s'
