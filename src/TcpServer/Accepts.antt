-- ===== src/TcpServer/Accepts.antt =====
-- muduo/net/TcpServer.cpp: a new connection is tracked, and the others stay so.
use learn_muduo.Prelude.{
  ℕ, suc, ◌+◌, ◌^◌, ◌<◌, ◌≡◌, ◌∙◌, refl, sym, ap, subst, inl, inr, Bool, false, List, [], ◌∷◌, ◌++◌,
  some, arith, if◌then◌else◌, lookup, insert, lookup-insert, insert-IsMap, eq_bytes, eq_bytes_refl,
  eq_bytes_ne, ltb, ltb→lt, Bool-cases,
}
use learn_muduo.EPollPoller.{put}
use learn_muduo.EPollPoller.Agreement.{put-same, put-other}
use learn_muduo.EventLoopThreadPool.{EventLoopThreadPool}
use learn_muduo.TcpConnection
use learn_muduo.TcpConnection.Order.{began, ended}
use learn_muduo.TcpServer.{Held, Functor, establishes, conn_name}
use learn_muduo.TcpServer.Names.{conn_name-injective}
use learn_muduo.TcpServer.System.{System}
use learn_muduo.TcpServer.Tracking.{
  counts, is_establishes, is_removes, is_destroys, counts-append, one_if, entry_of, TracksIn,
  IsTracked, carried,
}
use learn_muduo.TcpServer.Steps.{one_if-same, one_if-other}

module _ (s : System) (io_loop sockfd : ℕ) (thread_pool : EventLoopThreadPool)
    (t : IsTracked s) where
  unfoldable pub new_name : List ℕ
  new_name = conn_name s.server.name s.server.ip_port s.server.next_conn_id

  unfoldable pub new_held : Held
  unfolding new_name
  new_held = record {
    io_loop = io_loop;
    name = new_name;
    connection = record (TcpConnection.init sockfd) {
      has_write_complete = s.server.has_write_complete;
    };
  }

  unfoldable pub accepted : System
  unfolding new_held
  accepted = record {
    server = record s.server {
      heap = put s.server.heap s.allocated new_held;
      thread_pool = thread_pool;
      next_conn_id = suc s.server.next_conn_id;
      connections = insert new_name s.allocated s.server.connections;
    };
    allocated = suc s.allocated;
    waiting = s.waiting ++ establishes s.allocated ∷ [];
  }

  added :
      (is : Functor → Bool)
      → counts is accepted.waiting ≡ counts is s.waiting + one_if (is (establishes s.allocated))
  unfolding accepted
  added is = omega (arith, counts-append is s.waiting (establishes s.allocated ∷ []))

  same_name : new_name ≡ conn_name s.server.name s.server.ip_port (suc s.allocated)
  unfolding new_name
  same_name = ap (conn_name s.server.name s.server.ip_port) t.next

  listed : lookup new_name (insert new_name s.allocated s.server.connections) ≡ some s.allocated
  listed =
      lookup-insert new_name new_name s.allocated s.server.connections
      ∙ ap (λ b. if b then some s.allocated else lookup new_name s.server.connections)
          (eq_bytes_refl new_name)

  fresh_state : (began new_held.connection.state ≡ 0) × (ended new_held.connection.state ≡ 0)
  unfolding new_held TcpConnection.init
  fresh_state = (refl, refl)

  differs :
      suc s.allocated < 2 ^ 31
      → (p : ℕ) → p < s.allocated
      → eq_bytes new_name (s.server.heap p).name ≡ false
  differs small p h = eq_bytes_ne new_name (s.server.heap p).name (λ e.
      let same =
        conn_name-injective s.server.name s.server.ip_port (suc s.allocated) (suc p) t.short small
          (omega (arith, h, small)) (sym same_name ∙ e ∙ (t.tracks p h).named) in
      omega (arith, same, h))

  new_Tracks : suc s.allocated < 2 ^ 31 → TracksIn accepted s.allocated
  unfolding accepted
  new_Tracks small =
      let kept : put s.server.heap s.allocated new_held s.allocated ≡ new_held =
        put-same s.server.heap s.allocated new_held in
      let none_waits = t.unknown s.allocated (omega arith) in
      let one = one_if-same s.allocated in
      carried kept
        (ap (λ k. lookup k.name (insert new_name s.allocated s.server.connections)) kept ∙ listed)
        (added (is_establishes s.allocated)) (added (is_removes s.allocated))
        (added (is_destroys s.allocated))
        (record {
          named = same_name;
          starting = omega (arith, none_waits, one, fresh_state.0);
          removing = omega (arith, none_waits, one, fresh_state.1);
          destroying = omega (arith, none_waits, one);
        })

  old_Tracks : suc s.allocated < 2 ^ 31 → (p : ℕ) → p < s.allocated → TracksIn accepted p
  unfolding accepted
  old_Tracks small p h =
      let kept : put s.server.heap s.allocated new_held p ≡ s.server.heap p =
        put-other s.server.heap s.allocated p new_held (λ e. omega (arith, e, h)) in
      let zero = one_if-other s.allocated p (λ e. omega (arith, e, h)) in
      carried kept
        (ap (λ k. lookup k.name (insert new_name s.allocated s.server.connections)) kept
          ∙ lookup-insert new_name (s.server.heap p).name s.allocated s.server.connections
          ∙ ap (λ b. if b then some s.allocated else entry_of s p) (differs small p h))
        (omega (arith, added (is_establishes p), zero)) (omega (arith, added (is_removes p)))
        (omega (arith, added (is_destroys p))) (t.tracks p h)

  pub accepted-IsTracked : suc s.allocated < 2 ^ 31 → IsTracked accepted
  unfolding accepted
  accepted-IsTracked small = record {
    ordered = insert-IsMap new_name s.allocated s.server.connections t.ordered;
    next = ap suc t.next;
    small = small;
    short = t.short;
    tracks = λ p h. elim (Bool-cases (ltb p s.allocated)) [
      | inl old ↦ old_Tracks small p (ltb→lt p s.allocated old)
      | inr latest ↦
          let same : p ≡ s.allocated = ground (arith, latest, h) in
          subst (TracksIn accepted) (sym same) (new_Tracks small)
    ];
    unknown = λ p h.
        let zero = one_if-other s.allocated p (λ e. omega (arith, e, h)) in
        omega (
          arith,
          t.unknown p (omega (arith, h)),
          added (is_establishes p),
          added (is_removes p),
          added (is_destroys p),
          zero,
        );
  }
