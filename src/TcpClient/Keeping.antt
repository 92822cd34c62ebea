-- ===== src/TcpClient/Keeping.antt =====
-- muduo/net/TcpClient.cpp: each connection has ended or is the client's, where one of them changes.
use learn_muduo.Prelude.{
  ℕ, ◌+◌, ◌≤◌, ◌<◌, ◌≡◌, ◌∙◌, refl, sym, ap, subst, inl, inr, Bool, true, false, List, [], ◌∷◌,
  Option, none, some, arith, Bool-cases, All,
}
use learn_muduo.EPollPoller.{put}
use learn_muduo.EPollPoller.Agreement.{put-same, put-other}
use learn_muduo.Connector.{Connector, States, Errno, start_in_loop, is_disconnected}
use learn_muduo.Connector
use learn_muduo.Connector.Sockets
use learn_muduo.TcpConnection.{TcpConnection, StateE, shutdown, shutdown_in_loop, is_connected}
use learn_muduo.TcpConnection.Order.{ended}
use learn_muduo.TcpServer.Tracking.{linked}
use learn_muduo.TcpServer.Steps.{eq_or_ne}
use learn_muduo.TcpClient.{Held, disconnect, shutdown_of}
use learn_muduo.TcpClient.Attempts.{passed, is_own, is_up, Hands, OnResult, step-Hands}
use learn_muduo.TcpClient.System.{System}

abbrev pub is_some : Option ℕ → ℕ
is_some none = 0
is_some (some p) = 1

abbrev pub state_of : (ℕ → Held) → ℕ → StateE
state_of heap p = (heap p).connection.state

-- Each connection of a client has ended, or is the client's connection; then the connector is in the
-- state `kConnected`; and the connections that wait to be destroyed have ended.
pub record Single (heap : ℕ → Held) (connection : Option ℕ) (up allocated : ℕ) (waiting : List ℕ)
    : Type 0 where
  pub one : (p : ℕ) → p < allocated → ended (state_of heap p) + linked connection p ≡ 1
  pub known : (p : ℕ) → allocated ≤ p → linked connection p ≡ 0
  pub holds : is_some connection ≤ up
  pub over : All (λ p. (p < allocated) × (ended (state_of heap p) ≡ 1)) waiting

abbrev pub IsSingle : System → Type 0
IsSingle s =
    Single s.client.heap s.client.connection (is_up s.client.connector.state) s.allocated s.waiting

-- One connection of the heap changes, and does not open again.
pub changed :
    (heap : ℕ → Held) (connection : Option ℕ) (up allocated : ℕ) (waiting : List ℕ) (conn : ℕ)
    (held : Held)
    → ended held.connection.state ≡ ended (state_of heap conn)
    → Single heap connection up allocated waiting
    → Single (put heap conn held) connection up allocated waiting
changed heap connection up allocated waiting conn held e s = record {
  one = λ p h. omega (arith, same p, s.one p h);
  known = s.known;
  holds = s.holds;
  over = over waiting s.over;
}
  where
    same : (p : ℕ) → ended (state_of (put heap conn held) p) ≡ ended (state_of heap p)
    same p = elim (eq_or_ne p conn) [
      | inl is ↦
          subst (λ q. ended (state_of (put heap conn held) q) ≡ ended (state_of heap q)) (sym is)
            (ap (λ k. ended k.connection.state) (put-same heap conn held) ∙ e)
      | inr other ↦ ap (λ k. ended k.connection.state) (put-other heap conn p held other)
    ]

    over :
        (ps : List ℕ)
        → All (λ p. (p < allocated) × (ended (state_of heap p) ≡ 1)) ps
        → All (λ p. (p < allocated) × (ended (state_of (put heap conn held) p) ≡ 1)) ps
    over [] h = tt
    over (p ∷ ps) ((h, k), hs) = ((h, same p ∙ k), over ps hs)

shutdown-ended : (t : TcpConnection) (b : Bool) → ended (shutdown t b).0.state ≡ ended t.state
shutdown-ended t b = elim (Bool-cases (is_connected t.state)) [
  | inl up ↦ unfold shutdown shutdown_in_loop in ground (arith, connected_ended t.state up)
  | inr down ↦ unfold shutdown in rw down refl
]
  where
    connected_ended : (s : StateE) → is_connected s ≡ true → ended s ≡ 0
    connected_ended s h = ground (arith, h)

pub disconnected-IsSingle :
    (s : System) (b : Bool)
    → IsSingle s
    → IsSingle (record s { client = (disconnect s.client b).0 })
unfolding disconnect
disconnected-IsSingle s b i = by_connection s.client.connection refl
  where
    by_connection :
        (o : Option ℕ)
        → s.client.connection ≡ o
        → Single
            (shutdown_of o b (record s.client { connect_asked = false })).0.heap
            (shutdown_of o b (record s.client { connect_asked = false })).0.connection
            (is_up (shutdown_of o b (record s.client { connect_asked = false })).0.connector.state)
            s.allocated
            s.waiting
    by_connection none e = i
    by_connection (some p) e =
        let t = (s.client.heap p).connection in
        changed s.client.heap s.client.connection (is_up s.client.connector.state) s.allocated
          s.waiting p (record (s.client.heap p) { connection = (shutdown t b).0 })
          (shutdown-ended t b) i

-- What a call of the connector does where it hands over nothing.
pub attempted-IsSingle :
    (s : System) (c : Connector.Sockets.Call) (connector : Connector)
    (effects : List Connector.Effect)
    → is_own c ≡ true
    → Connector.Sockets.step c s.client.connector ≡ some (connector, effects)
    → IsSingle s
    → Single s.client.heap s.client.connection (is_up connector.state) s.allocated s.waiting
attempted-IsSingle s c connector effects own made i =
    let hands : passed effects + is_up s.client.connector.state ≤ is_up connector.state =
      subst (OnResult (Hands s.client.connector)) made (step-Hands c s.client.connector own) in
    record { one = i.one; known = i.known; holds = omega (arith, hands, i.holds); over = i.over }
