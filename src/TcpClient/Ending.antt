-- ===== src/TcpClient/Ending.antt =====
-- muduo/net/TcpClient.cpp: `removeConnection`, and the destruction of a connection.
use learn_muduo.Prelude.{
  ℕ, ◌+◌, ◌≤◌, ◌<◌, ◌≡◌, ◌≢◌, ◌∙◌, refl, sym, ap, subst, inl, inr, true, ◌&&◌, List, [], ◌∷◌, ◌++◌,
  Option, none, some, arith, Bool-cases, Option-cases, All, All-append,
}
use learn_muduo.EPollPoller.{put, is_channel}
use learn_muduo.EPollPoller.Agreement.{put-same, put-other}
use learn_muduo.Connector.{Connector, States, Errno, start_in_loop, is_disconnected}
use learn_muduo.Connector
use learn_muduo.TcpConnection.{
  TcpConnection, StateE, connected, connecting, disconnected, connect_established,
  connect_destroyed, shutdown, shutdown_in_loop, is_connected,
}
use learn_muduo.TcpConnection
use learn_muduo.TcpConnection.Run.{Call, step}
use learn_muduo.TcpConnection.Order.{began, ended, closes, Moves}
use learn_muduo.TcpConnection.Order
use learn_muduo.TcpConnection.Notices.{is_between, step-Moves}
use learn_muduo.TcpServer.Tracking.{linked}
use learn_muduo.TcpServer.Steps.{eq_or_ne, ended-le, destroyed-state}
use learn_muduo.TcpClient.{TcpClient, Held, Effect, with_connection, remove_connection}
use learn_muduo.TcpClient.Attempts.{is_up}
use learn_muduo.TcpClient.System.{System}
use learn_muduo.TcpClient.Keeping.{state_of, Single, IsSingle, changed}

-- A connection that ends is the client's connection.
pub ends-current :
    (s : System) (conn : ℕ) (c : Call) (t : TcpConnection) (effects : List TcpConnection.Effect)
    → IsSingle s
    → conn < s.allocated
    → is_between c ≡ true
    → step c (s.client.heap conn).connection ≡ some (t, effects)
    → (ended t.state ≡ ended (state_of s.client.heap conn) + closes effects)
      × (0 < closes effects → linked s.client.connection conn ≡ 1)
ends-current s conn c t effects i h between made =
    let m : Moves (s.client.heap conn).connection t effects =
      subst (TcpConnection.Order.OnResult (Moves (s.client.heap conn).connection)) made
        (step-Moves c (s.client.heap conn).connection between) in
    (m.closed, λ more. omega (arith, more, m.closed, ended-le t.state, i.one conn h))

pub is_channel-linked : (o : Option ℕ) (p : ℕ) → linked o p ≡ 1 → is_channel o p ≡ true
is_channel-linked none p h = absurd (omega (arith, h))
is_channel-linked (some q) p h = ground (arith, h)

linked-other : (o : Option ℕ) (p q : ℕ) → linked o q ≡ 1 → p ≢ q → linked o p ≡ 0
linked-other none p q h ne = refl
linked-other (some r) p q h ne = ground (arith, h, ne)

-- The results of `removeConnection`.
abbrev pub Ended : System → ℕ → Option (TcpClient × List Effect) → Type 0
Ended s conn none = Unit {0}
Ended s conn (some (client, made)) =
    Single client.heap client.connection (is_up client.connector.state) s.allocated
      (s.waiting ++ conn ∷ [])

-- The client's connection ended.
ended-Single :
    (s : System) (conn : ℕ) (t : TcpConnection) (up : ℕ)
    → IsSingle s
    → conn < s.allocated
    → ended t.state ≡ 1
    → linked s.client.connection conn ≡ 1
    → Single
        (put s.client.heap conn (record (s.client.heap conn) { connection = t }))
        none
        up
        s.allocated
        (s.waiting ++ conn ∷ [])
ended-Single s conn t up i h e current = record {
  one = λ p k. omega (arith, ended_at p k);
  known = λ p k. refl;
  holds = omega arith;
  over =
      All-append (λ p. (p < s.allocated) × (ended (state_of heap p) ≡ 1)) s.waiting (conn ∷ [])
        (kept s.waiting i.over) ((h, ended_at conn h), tt);
}
  where
    held : Held
    held = record (s.client.heap conn) { connection = t }

    heap : ℕ → Held
    heap = put s.client.heap conn held

    ended_at : (p : ℕ) → p < s.allocated → ended (state_of heap p) ≡ 1
    ended_at p k = elim (eq_or_ne p conn) [
      | inl is ↦
          subst (λ q. ended (state_of heap q) ≡ 1) (sym is)
            (ap (λ j. ended j.connection.state) (put-same s.client.heap conn held) ∙ e)
      | inr other ↦ omega (
        arith,
        i.one p k,
        linked-other s.client.connection p conn current other,
        ap (λ j. ended j.connection.state) (put-other s.client.heap conn p held other),
      )
    ]

    kept :
        (ps : List ℕ)
        → All (λ p. (p < s.allocated) × (ended (state_of s.client.heap p) ≡ 1)) ps
        → All (λ p. (p < s.allocated) × (ended (state_of heap p) ≡ 1)) ps
    kept [] k = tt
    kept (p ∷ ps) ((k, _), ks) = ((k, ended_at p k), kept ps ks)

pub remove_connection-Ended :
    (s : System) (conn : ℕ) (t : TcpConnection) (sockfd : ℕ) (e : Errno)
    → IsSingle s
    → conn < s.allocated
    → ended t.state ≡ 1
    → linked s.client.connection conn ≡ 1
    → Ended s conn (remove_connection (with_connection s.client conn t) conn sockfd e)
remove_connection-Ended s conn t sockfd e i h over current =
    let found = is_channel-linked s.client.connection conn current in
    let single = λ (up : ℕ). ended-Single s conn t up i h over current in
    elim (Bool-cases (s.client.retry && s.client.connect_asked)) [
      | inl again ↦ elim (Option-cases (Connector.restart s.client.connector sockfd e)) [
        | inl stuck ↦ unfold remove_connection in rw (found, again) (rw stuck tt)
        | inr ((connector, effects), made) ↦
            unfold remove_connection in rw (found, again) (rw made (single (is_up connector.state)))
      ]
      | inr no_more ↦
          unfold remove_connection in rw (found, no_more) (single (is_up s.client.connector.state))
    ]

pub destroyed-IsSingle :
    (s : System) (conn : ℕ) (before behind : List ℕ) (t : TcpConnection)
    (effects : List TcpConnection.Effect)
    → s.waiting ≡ before ++ conn ∷ behind
    → connect_destroyed (s.client.heap conn).connection ≡ some (t, effects)
    → IsSingle s
    → IsSingle (record s { client = with_connection s.client conn t; waiting = before ++ behind })
destroyed-IsSingle s conn before behind t effects e made i =
    let P : ℕ → Type 0 = λ p. (p < s.allocated) × (ended (state_of s.client.heap p) ≡ 1) in
    let (over, rest) = taken P before behind conn (subst (All P) e i.over) in
    let (_, later_end) = destroyed-state (s.client.heap conn).connection t effects made in
    changed s.client.heap s.client.connection (is_up s.client.connector.state) s.allocated
      (before ++ behind) conn (record (s.client.heap conn) { connection = t })
      (omega (arith, later_end, over.1, ended-le t.state))
      (record { one = i.one; known = i.known; holds = i.holds; over = rest })
  where
    taken :
        (P : ℕ → Type 0) (xs ys : List ℕ) (x : ℕ) → All P (xs ++ x ∷ ys) → P x × All P (xs ++ ys)
    taken P [] ys x (h, hs) = (h, hs)
    taken P (z ∷ zs) ys x (h, hs) = let (k, ks) = taken P zs ys x hs in (k, (h, ks))

pub is_up-le : (c : Connector) → is_up c.state ≤ 1
is_up-le c = ground arith
