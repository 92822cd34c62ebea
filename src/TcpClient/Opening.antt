-- ===== src/TcpClient/Opening.antt =====
-- muduo/net/TcpClient.cpp: `newConnection`.
use learn_muduo.Prelude.{
  ℕ, suc, ◌+◌, ◌<◌, ◌≡◌, ◌∙◌, refl, sym, ap, subst, inl, inr, List, [], ◌∷◌, Option, none, some,
  arith, All,
}
use learn_muduo.EPollPoller.{put}
use learn_muduo.EPollPoller.Agreement.{put-same, put-other}
use learn_muduo.Connector.{Connector}
use learn_muduo.TcpConnection.{
  TcpConnection, StateE, connected, connecting, disconnected, connect_established,
  connect_destroyed, shutdown, shutdown_in_loop, is_connected,
}
use learn_muduo.TcpConnection
use learn_muduo.TcpConnection.Order.{ended}
use learn_muduo.TcpServer.Tracking.{linked}
use learn_muduo.TcpServer.Steps.{eq_or_ne, one_if-same, one_if-other}
use learn_muduo.TcpClient.{TcpClient, Held, Effect, new_connection}
use learn_muduo.TcpClient.Attempts.{is_up}
use learn_muduo.TcpClient.System.{System}
use learn_muduo.TcpClient.Keeping.{is_some, state_of, Single, IsSingle}

-- A new connection, where the client had none.
module _ (s : System) (connector : Connector) (peer : List ℕ) (sockfd : ℕ) (i : IsSingle s)
    (free : is_some s.client.connection ≡ 0) (up : is_up connector.state ≡ 1) where
  abbrev pub before : TcpClient
  before = record s.client { connector = connector }

  -- The results of `newConnection`.
  abbrev pub Opened : Option (TcpClient × List Effect) → Type 0
  Opened none = Unit {0}
  Opened (some (client, made)) =
      Single client.heap client.connection (is_up client.connector.state) (suc s.allocated)
        s.waiting

  linked_none : (o : Option ℕ) (p : ℕ) → is_some o ≡ 0 → linked o p ≡ 0
  linked_none none p h = refl
  linked_none (some q) p h = absurd (omega (arith, h))

  kept_over :
      (heap : ℕ → Held) (ps : List ℕ)
      → ((p : ℕ) → p < s.allocated → heap p ≡ s.client.heap p)
      → All (λ p. (p < s.allocated) × (ended (state_of s.client.heap p) ≡ 1)) ps
      → All (λ p. (p < suc s.allocated) × (ended (state_of heap p) ≡ 1)) ps
  kept_over heap [] same h = tt
  kept_over heap (p ∷ ps) same ((h, k), hs) = (
    (omega (arith, h), ap (λ j. ended j.connection.state) (same p h) ∙ k),
    kept_over heap ps same hs,
  )

  opened-Single :
      (held held' : Held)
      → ended held'.connection.state ≡ 0
      → Single
          (put (put s.client.heap s.allocated held) s.allocated held')
          (some s.allocated)
          (is_up connector.state)
          (suc s.allocated)
          s.waiting
  opened-Single held held' e = record {
    one = λ p h. elim (eq_or_ne p s.allocated) [
      | inl is ↦
          subst (λ q. ended (state_of heap q) + linked (some s.allocated) q ≡ 1) (sym is)
            (omega (
              arith,
              one_if-same s.allocated,
              e,
              ap (λ k. ended k.connection.state)
                  (put-same (put s.client.heap s.allocated held) s.allocated held'),
            ))
      | inr other ↦
          let below : p < s.allocated = omega (arith, h, other) in
          omega (
            arith,
            one_if-other s.allocated p other,
            i.one p below,
            linked_none s.client.connection p free,
            ap (λ k. ended k.connection.state) (same p below),
          )
    ];
    known = λ p h. one_if-other s.allocated p (λ e'. omega (arith, e', h));
    holds = omega (arith, up);
    over = kept_over heap s.waiting same i.over;
  }
    where
      heap : ℕ → Held
      heap = put (put s.client.heap s.allocated held) s.allocated held'

      same : (p : ℕ) → p < s.allocated → heap p ≡ s.client.heap p
      same p h =
          put-other (put s.client.heap s.allocated held) s.allocated p held'
            (λ e'. omega (arith, e', h))
          ∙ put-other s.client.heap s.allocated p held (λ e'. omega (arith, e', h))

  pub new_connection-Opened : Opened (new_connection before s.allocated peer sockfd)
  unfolding new_connection connect_established TcpConnection.init
  new_connection-Opened = opened-Single _ _ refl
