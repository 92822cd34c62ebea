-- ===== src/TcpServer/Removal.antt =====
-- muduo/net/TcpServer.cpp: what holds whatever the loops do, and in whatever order.
use learn_muduo.Prelude.{
  ℕ, suc, ◌^◌, ◌<◌, ◌≡◌, refl, subst, inl, inr, true, false, List, [], ◌∷◌, ◌++◌, Option, none,
  some, arith, erase, Bool-cases, Option-cases,
}
use learn_muduo.EventLoopThreadPool.{EventLoopThreadPool, get_next_loop}
use learn_muduo.EventLoopThreadPool
use learn_muduo.TcpConnection.{StateE, connecting, connected, disconnecting, disconnected}
use learn_muduo.TcpConnection.Order.{began, ended}
use learn_muduo.TcpServer.{
  TcpServer, Functor, listens, removes, destroys, Effect, queues, Stepped, init, new_connection,
  remove_connection_in_loop, set_thread_num, start, is_found,
}
use learn_muduo.TcpServer.System.{
  System, functors, Step, configures, starts, accepts, listens_now, establishes_now, acts,
  removes_now, destroys_now, Reachable, fresh, later,
}
use learn_muduo.TcpServer.Tracking.{
  counts, is_establishes, is_removes, is_destroys, counts-append, linked, entry_of, waits_for,
  IsTracked,
}
use learn_muduo.TcpServer.Steps.{
  unconcerned, pooled, known, others, ended-le, linked-le, establishes-IsTracked,
  destroys-IsTracked, acts-IsTracked, removes-IsTracked,
}
use learn_muduo.TcpServer.Accepts.{accepted, new_held, new_name, accepted-IsTracked}

-- Every result of a method, if it has one.
abbrev OnResult : (TcpServer → List Effect → Type 0) → Stepped → Type 0
OnResult P none = Unit {0}
OnResult P (some (s, effects)) = P s effects

-- Functors that are for no connection.
quiet :
    (p : ℕ) (waiting fs : List Functor)
    → counts (is_establishes p) fs ≡ 0
    → counts (is_removes p) fs ≡ 0
    → counts (is_destroys p) fs ≡ 0
    → (counts (is_establishes p) (waiting ++ fs) ≡ counts (is_establishes p) waiting)
      × (counts (is_removes p) (waiting ++ fs) ≡ counts (is_removes p) waiting)
      × (counts (is_destroys p) (waiting ++ fs) ≡ counts (is_destroys p) waiting)
quiet p waiting fs e r d = (
  omega (arith, e, counts-append (is_establishes p) waiting fs),
  omega (arith, r, counts-append (is_removes p) waiting fs),
  omega (arith, d, counts-append (is_destroys p) waiting fs),
)

started-IsTracked :
    (s : System) (start_loop : ℕ → ℕ)
    → IsTracked s
    → OnResult
        (λ server effects.
          IsTracked (record s { server = server; waiting = s.waiting ++ functors effects }))
        (start s.server start_loop)
started-IsTracked s start_loop t = elim (Bool-cases s.server.started) [
  | inl again ↦
      unfold start in
      rw again (
        unconcerned (record s { server = record s.server { started = true } }) (s.waiting ++ [])
          (λ p. quiet p s.waiting [] refl refl refl)
          (pooled s s.server.acceptor s.server.thread_pool true t))
  | inr first ↦ elim (Option-cases (EventLoopThreadPool.start s.server.thread_pool start_loop)) [
    | inl failed ↦ unfold start in rw (first, failed) tt
    | inr (pool, made) ↦ elim (Bool-cases s.server.acceptor.listening) [
      | inl busy ↦ unfold start in rw (first, made, busy) tt
      | inr idle ↦
          unfold start in
          rw (first, made, idle)
            (unconcerned
              (record s {
                server = record s.server {
                  acceptor = record s.server.acceptor { listening = false };
                  thread_pool = pool;
                  started = true;
                };
              })
              (s.waiting ++ listens ∷ []) (λ p. quiet p s.waiting (listens ∷ []) refl refl refl)
              (pooled s (record s.server.acceptor { listening = false }) pool true t))
    ]
  ]
]

accepts-IsTracked :
    (s : System) (sockfd : ℕ)
    → suc s.allocated < 2 ^ 31
    → IsTracked s
    → OnResult
        (λ server effects. IsTracked (record {
          server = server;
          allocated = suc s.allocated;
          waiting = s.waiting ++ functors effects;
        }))
        (new_connection s.server s.allocated sockfd)
accepts-IsTracked s sockfd small t = elim (Option-cases (get_next_loop s.server.thread_pool)) [
  | inl not_started ↦ unfold new_connection in rw not_started tt
  | inr ((io_loop, pool), made) ↦
      unfold new_connection in
      rw made
        (unfold accepted new_held new_name in accepted-IsTracked s io_loop sockfd pool t small)
]

removed-IsTracked :
    (s : System) (conn : ℕ) (before behind : List Functor)
    → s.waiting ≡ before ++ removes conn ∷ behind
    → IsTracked s
    → OnResult
        (λ server effects.
          IsTracked
            (record s { server = server; waiting = (before ++ behind) ++ functors effects }))
        (remove_connection_in_loop s.server conn)
removed-IsTracked s conn before behind e t = elim (Bool-cases (is_found (entry_of s conn))) [
  | inl found ↦
      unfold remove_connection_in_loop in rw found (removes-IsTracked s conn before behind e t)
  | inr lost ↦ unfold remove_connection_in_loop in rw lost tt
]

step-IsTracked : {s s' : System} → IsTracked s → Step s s' → IsTracked s'
step-IsTracked {s} t (configures n) =
    unfold set_thread_num in
    pooled s s.server.acceptor (EventLoopThreadPool.set_thread_num s.server.thread_pool n)
      s.server.started t
step-IsTracked {s} t (starts start_loop made) =
    subst (OnResult _) made (started-IsTracked s start_loop t)
step-IsTracked {s} t (accepts sockfd small made) =
    subst (OnResult _) made (accepts-IsTracked s sockfd small t)
step-IsTracked {s} t (listens_now before behind e) =
    unconcerned s (before ++ behind)
      (λ p.
        let (es, rs, ds) = others s.waiting before behind listens p e in
        (omega (arith, es), omega (arith, rs), omega (arith, ds)))
      t
step-IsTracked {s} t (establishes_now {t = u} {effects} conn before behind e made) =
    establishes-IsTracked s conn before behind u effects e made t
step-IsTracked {s} t (acts {t = u} {effects} conn c lives between made) =
    acts-IsTracked s conn c u effects lives between made t
step-IsTracked {s} t (removes_now conn before behind e made) =
    subst (OnResult _) made (removed-IsTracked s conn before behind e t)
step-IsTracked {s} t (destroys_now {t = u} {effects} conn before behind e made) =
    destroys-IsTracked s conn before behind u effects e made t

-- In every system that a new server's loops lead to, whatever they do and in whatever order, while it has
-- made fewer than 2 ^ 31 connections and its address has at most 51 characters, the map's keys are in order, and each connection has its own name, waits to be established exactly until it
-- starts, is in the map until it is removed, has a removal waiting exactly while it has ended and is
-- in the map, and is destroyed only when it is not in the map any more.
pub reachable-IsTracked : {s : System} → Reachable s → IsTracked s
reachable-IsTracked (fresh heap loop ip_port name acceptor short) =
    unfold init in
    record {
      ordered = tt;
      next = refl;
      small = omega arith;
      short = short;
      tracks = λ p h. absurd (omega (arith, h));
      unknown = λ p h. refl;
    }
reachable-IsTracked (later r st) = step-IsTracked (reachable-IsTracked r) st

entry_found : (o : Option ℕ) (p : ℕ) → linked o p ≡ 1 → is_found o ≡ true
entry_found none p h = absurd (omega (arith, h))
entry_found (some q) p h = refl

began_of : (s : StateE) → ended s ≡ 1 → began s ≡ 1
began_of disconnected h = refl
began_of connecting h = absurd (omega (arith, h))
began_of connected h = refl
began_of disconnecting h = refl

ended_of : (s : StateE) → ended s ≡ 1 → s ≡ disconnected
ended_of disconnected h = refl
ended_of connecting h = absurd (omega (arith, h))
ended_of connected h = absurd (omega (arith, h))
ended_of disconnecting h = absurd (omega (arith, h))

-- In every such system, a removal that waits finds its connection: it passes its assertion, takes the
-- connection out of the map and queues its destruction in its own loop; it is the only functor that
-- waits for the connection, and the connection has ended.
pub remove_connection_in_loop-found :
    {s : System} (conn : ℕ)
    → Reachable s
    → 0 < counts (is_removes conn) s.waiting
    → (remove_connection_in_loop s.server conn
        ≡ some (
          record s.server { connections = erase (s.server.heap conn).name s.server.connections },
          queues (s.server.heap conn).io_loop (destroys conn) ∷ [],
        ))
      × (waits_for conn s.waiting ≡ 1)
      × ((s.server.heap conn).connection.state ≡ disconnected)
unfolding remove_connection_in_loop
remove_connection_in_loop-found {s} conn r h =
    let t = reachable-IsTracked r in
    let lives = known s conn t (omega (arith, h)) in
    let now = t.tracks conn lives in
    let e0 = ended-le (s.server.heap conn).connection.state in
    let l0 = linked-le (entry_of s conn) conn in
    let in_map : linked (entry_of s conn) conn ≡ 1 = omega (arith, h, now.removing, e0, l0) in
    let over : ended (s.server.heap conn).connection.state ≡ 1 =
      omega (arith, h, now.removing, e0, l0) in
    let b0 = began_of (s.server.heap conn).connection.state over in
    (
      rw (entry_found (entry_of s conn) conn in_map) refl,
      omega (arith, now.starting, now.removing, now.destroying, b0, over, in_map),
      ended_of (s.server.heap conn).connection.state over,
    )
