-- ===== src/TcpClient/Single.antt =====
-- muduo/net/TcpClient.cpp: a client has at most one open connection.
use learn_muduo.Prelude.{
  ℕ, ◌+◌, ◌≤◌, ◌<◌, ◌≡◌, refl, subst, true, false, ◌&&◌, List, [], ◌∷◌, Option, none, some, arith,
}
use learn_muduo.Connector.{Connector, States, Errno, start_in_loop, is_disconnected}
use learn_muduo.Connector
use learn_muduo.TcpConnection.{
  TcpConnection, StateE, connected, connecting, disconnected, connect_established,
  connect_destroyed, shutdown, shutdown_in_loop, is_connected,
}
use learn_muduo.TcpConnection
use learn_muduo.TcpConnection.Run.{Call, step}
use learn_muduo.TcpConnection.Order.{closes}
use learn_muduo.TcpConnection.Notices.{is_between}
use learn_muduo.TcpServer.Tracking.{linked}
use learn_muduo.TcpServer.Steps.{ended-le}
use learn_muduo.TcpClient.{
  TcpClient, Effect, queues_destroy, init, enable_retry, connect, stop, with_connection,
  remove_connection,
}
use learn_muduo.TcpClient.Attempts.{passed, is_up, Hands, OnResult, step-Hands}
use learn_muduo.TcpClient.System.{
  System, Step, enables_retry, connects, disconnects, stops, attempts, succeeds, acts, ends,
  destroys_now, Reachable, fresh, later,
}
use learn_muduo.TcpClient.Keeping.{
  is_some, IsSingle, changed, disconnected-IsSingle, attempted-IsSingle,
}
use learn_muduo.TcpClient.Opening.{Opened, new_connection-Opened}
use learn_muduo.TcpClient.Ending.{
  ends-current, Ended, remove_connection-Ended, destroyed-IsSingle, is_up-le, is_channel-linked,
}

step-IsSingle : {s s' : System} → IsSingle s → Step s s' → IsSingle s'
step-IsSingle i enables_retry = unfold enable_retry in i
step-IsSingle i connects = unfold connect Connector.start in i
step-IsSingle {s} i (disconnects b) = disconnected-IsSingle s b i
step-IsSingle i stops = unfold stop Connector.stop in i
step-IsSingle {s} i (attempts {connector} {effects} c own made quiet) =
    attempted-IsSingle s c connector effects own made i
step-IsSingle {s} i (succeeds {connector} {effects} c peer sockfd own made hands opened) =
    let given : passed effects + is_up s.client.connector.state ≤ is_up connector.state =
      subst (OnResult (Hands s.client.connector)) made (step-Hands c s.client.connector own) in
    let most = is_up-le connector in
    subst
      (Opened s connector peer sockfd i (omega (arith, given, hands, most, i.holds))
        (omega (arith, given, hands, most)))
      opened
      (new_connection-Opened s connector peer sockfd i (omega (arith, given, hands, most, i.holds))
        (omega (arith, given, hands, most)))
step-IsSingle {s} i (acts {t} {effects} conn c h between made quiet) =
    let (closed, _) = ends-current s conn c t effects i h between made in
    changed s.client.heap s.client.connection (is_up s.client.connector.state) s.allocated s.waiting
      conn (record (s.client.heap conn) { connection = t }) (omega (arith, closed, quiet)) i
step-IsSingle {s} i (ends {t} {effects} conn c sockfd e h between made more removed) =
    let (closed, current) = ends-current s conn c t effects i h between made in
    subst (Ended s conn) removed (
      remove_connection-Ended s conn t sockfd e i h (omega (arith, closed, more, ended-le t.state))
        (current more))
step-IsSingle {s} i (destroys_now {t} {effects} conn before behind e made) =
    destroyed-IsSingle s conn before behind t effects e made i

-- Whatever the loop and the users of a client do, and in whatever order: each of its connections has
-- ended, or is the client's connection, so that at most one is open; while there is one, the connector
-- is in the state `kConnected`; and the connections that wait to be destroyed have ended.
pub reachable-IsSingle : {s : System} → Reachable s → IsSingle s
reachable-IsSingle (fresh heap name) =
    unfold init Connector.init in
    record {
      one = λ p h. absurd (omega (arith, h));
      known = λ p h. refl;
      holds = omega arith;
      over = tt;
    }
reachable-IsSingle (later r st) = step-IsSingle (reachable-IsSingle r) st

-- Whatever happened before, `removeConnection` of a connection that ends, by any call, passes its
-- assertions where the client does not retry: the connection is the client's. The connector is left
-- in the state `kConnected`, so that its next start fails an assertion, whatever the socket and the
-- answer are.
pub remove_connection-current :
    {s : System} (conn : ℕ) (c : Call) (t : TcpConnection) (effects : List TcpConnection.Effect)
    (sockfd : ℕ) (e : Errno)
    → Reachable s
    → conn < s.allocated
    → is_between c ≡ true
    → step c (s.client.heap conn).connection ≡ some (t, effects)
    → 0 < closes effects
    → (s.client.retry && s.client.connect_asked) ≡ false
    → (client : TcpClient) × (made : List Effect) × (remove_connection
          (with_connection s.client conn t)
          conn
          sockfd
          e
        ≡ some (client, made))
      × (start_in_loop client.connector sockfd e ≡ none)
remove_connection-current {s} conn c t effects sockfd e r h between made more no_more =
    let i = reachable-IsSingle r in
    let (closed, linked_now) = ends-current s conn c t effects i h between made in
    let current = linked_now more in
    let some_connection : is_some s.client.connection ≡ 1 =
      linked_some s.client.connection conn current in
    let up : is_up s.client.connector.state ≡ 1 =
      omega (arith, some_connection, i.holds, is_up-le s.client.connector) in
    (
      record (with_connection s.client conn t) { connection = none },
      queues_destroy conn ∷ [],
      unfold remove_connection in
          rw (is_channel-linked s.client.connection conn current, no_more) refl,
      unfold start_in_loop in rw (up_not_down s.client.connector.state up) refl,
    )
  where
    linked_some : (o : Option ℕ) (p : ℕ) → linked o p ≡ 1 → is_some o ≡ 1
    linked_some none p k = absurd (omega (arith, k))
    linked_some (some q) p k = refl

    up_not_down : (st : States) → is_up st ≡ 1 → is_disconnected st ≡ false
    up_not_down st k = ground (arith, k)
