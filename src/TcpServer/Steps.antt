-- ===== src/TcpServer/Steps.antt =====
-- muduo/net/TcpServer.cpp: every step keeps the connections tracked.
use learn_muduo.Prelude.{
  ℕ, suc, ◌+◌, ◌≤◌, ◌<◌, ◌≡◌, ◌≢◌, ◌⊎◌, ◌∙◌, refl, sym, ap, subst, inl, inr, Bool, true, false,
  List, [], ◌∷◌, ◌++◌, Option, none, some, arith, ◌==◌, ==_iff, eq→==, ne→==, if◌then◌else◌, lookup,
  erase, lookup-erase, erase-IsMap, eq_bytes, eq_bytes_refl, eq_bytes_ne, Bool-cases, Option-cases,
  ltb, ltb→lt,
}
use learn_muduo.EPollPoller.Agreement.{put-same, put-other}
use learn_muduo.EventLoopThreadPool.{EventLoopThreadPool}
use learn_muduo.TcpConnection.{
  TcpConnection, StateE, disconnected, connecting, connected, disconnecting, connect_established,
  connect_destroyed, is_connected,
}
use learn_muduo.Channel.{remove, disable_all}
use learn_muduo.TcpConnection
use learn_muduo.TcpConnection.Run.{Call, step}
use learn_muduo.TcpConnection.Order.{began, ended, closes, Moves, OnResult}
use learn_muduo.TcpConnection.Notices.{is_between, step-Moves}
use learn_muduo.Acceptor.{Acceptor}
use learn_muduo.TcpServer.{Held, Functor, establishes, removes, destroys}
use learn_muduo.TcpServer.Names.{conn_name-injective}
use learn_muduo.TcpServer.System.{System, removals, with_connection}
use learn_muduo.TcpServer.Tracking.{
  one_if, counts, is_establishes, is_removes, is_destroys, counts-append, counts-taken, linked,
  Tracks, entry_of, TracksIn, waits_for, IsTracked, carried, counts-removals,
}

pub eq_or_ne : (a b : ℕ) → (a ≡ b) ⊎ (a ≢ b)
eq_or_ne a b = elim (Bool-cases (a == b)) [
  | inl e ↦ inl ((==_iff a b).0 e)
  | inr e ↦ inr (λ h. let same = eq→== a b h in cc)
]

-- A functor that concerns no connection comes or goes.
pub unconcerned :
    (s : System) (waiting : List Functor)
    → ((p : ℕ)
        → (counts (is_establishes p) waiting ≡ counts (is_establishes p) s.waiting)
          × (counts (is_removes p) waiting ≡ counts (is_removes p) s.waiting)
          × (counts (is_destroys p) waiting ≡ counts (is_destroys p) s.waiting))
    → IsTracked s
    → IsTracked (record s { waiting = waiting })
unconcerned s waiting same t = record {
  ordered = t.ordered;
  next = t.next;
  small = t.small;
  short = t.short;
  tracks = λ p h. let (e, r, d) = same p in carried refl refl e r d (t.tracks p h);
  unknown = λ p h. let (e, r, d) = same p in omega (arith, t.unknown p h, e, r, d);
}

-- A connection of the heap changes, with the functors that wait for it.
changed :
    (s : System) (conn : ℕ) (u : TcpConnection) (waiting : List Functor)
    → conn < s.allocated
    → ((p : ℕ)
        → p ≢ conn
        → (counts (is_establishes p) waiting ≡ counts (is_establishes p) s.waiting)
          × (counts (is_removes p) waiting ≡ counts (is_removes p) s.waiting)
          × (counts (is_destroys p) waiting ≡ counts (is_destroys p) s.waiting))
    → (Tracks s.server.name s.server.ip_port conn
        (record (s.server.heap conn) { connection = u })
        (entry_of s conn)
        (counts (is_establishes conn) waiting)
        (counts (is_removes conn) waiting)
        (counts (is_destroys conn) waiting))
    → IsTracked s
    → IsTracked (record s { server = with_connection s.server conn u; waiting = waiting })
changed s conn u waiting known same here t = record {
  ordered = t.ordered;
  next = t.next;
  small = t.small;
  short = t.short;
  tracks = tracks;
  unknown = λ p h.
      let (e, r, d) = same p (λ i. omega (arith, i, h, known)) in
      omega (arith, t.unknown p h, e, r, d);
}
  where
    held : Held
    held = record (s.server.heap conn) { connection = u }

    tracks :
        (p : ℕ)
        → p < s.allocated
        → TracksIn (record s { server = with_connection s.server conn u; waiting = waiting }) p
    tracks p h = elim (eq_or_ne p conn) [
      | inl is ↦
          subst
            (TracksIn (record s { server = with_connection s.server conn u; waiting = waiting }))
            (sym is)
            (carried (put-same s.server.heap conn held)
              (ap (λ k. lookup k.name s.server.connections) (put-same s.server.heap conn held)) refl
              refl refl here)
      | inr other ↦
          let (e, r, d) = same p other in
          let kept = put-other s.server.heap conn p held other in
          carried kept (ap (λ k. lookup k.name s.server.connections) kept) e r d (t.tracks p h)
    ]

-- The pool of threads changes, and whether the server is started.
pub pooled :
    (s : System) (acceptor : Acceptor) (thread_pool : EventLoopThreadPool) (started : Bool)
    → IsTracked s
    → IsTracked (record s {
      server = record s.server {
        acceptor = acceptor;
        thread_pool = thread_pool;
        started = started;
      };
    })
pooled s acceptor thread_pool started t = record {
  ordered = t.ordered;
  next = t.next;
  small = t.small;
  short = t.short;
  tracks = t.tracks;
  unknown = t.unknown;
}

-- A functor that waits is for a connection that the server made.
pub known : (s : System) (p : ℕ) → IsTracked s → 0 < waits_for p s.waiting → p < s.allocated
known s p t h = elim (Bool-cases (ltb p s.allocated)) [
  | inl below ↦ ltb→lt p s.allocated below
  | inr above ↦
      absurd (let none_waits = t.unknown p (ground (arith, above)) in omega (arith, none_waits, h))
]

-- The functors without one of them.
pub others :
    (waiting before behind : List Functor) (f : Functor) (p : ℕ)
    → waiting ≡ before ++ f ∷ behind
    → (counts (is_establishes p) waiting
        ≡ one_if (is_establishes p f) + counts (is_establishes p) (before ++ behind))
      × (counts (is_removes p) waiting
          ≡ one_if (is_removes p f) + counts (is_removes p) (before ++ behind))
      × (counts (is_destroys p) waiting
          ≡ one_if (is_destroys p f) + counts (is_destroys p) (before ++ behind))
others waiting before behind f p e = (
  counts-taken (is_establishes p) waiting before behind f e,
  counts-taken (is_removes p) waiting before behind f e,
  counts-taken (is_destroys p) waiting before behind f e,
)

pub one_if-same : (p : ℕ) → one_if (p == p) ≡ 1
one_if-same p = rw (eq→== p p refl) refl

pub one_if-other : (p q : ℕ) → q ≢ p → one_if (p == q) ≡ 0
one_if-other p q h = rw (ne→== p q (λ e. h (sym e))) refl

pub ended-le : (s : StateE) → ended s ≤ 1
ended-le connecting = omega arith
ended-le connected = omega arith
ended-le disconnecting = omega arith
ended-le disconnected = omega arith

pub linked-le : (o : Option ℕ) (p : ℕ) → linked o p ≤ 1
linked-le none p = omega arith
linked-le (some q) p = ground arith

pub established-state :
    (t u : TcpConnection) (effects : List TcpConnection.Effect)
    → connect_established t ≡ some (u, effects)
    → (began t.state ≡ 0) × (began u.state ≡ 1) × (ended t.state ≡ 0) × (ended u.state ≡ 0)
established-state t u effects made = subst (OnResult Established) made (by_state t.state refl)
  where
    Established : TcpConnection → List TcpConnection.Effect → Type 0
    Established v es =
        (began t.state ≡ 0) × (began v.state ≡ 1) × (ended t.state ≡ 0) × (ended v.state ≡ 0)

    by_state : (s : StateE) → t.state ≡ s → OnResult Established (connect_established t)
    by_state connecting e = unfold connect_established in rw e (refl, refl, refl, refl)
    by_state connected e = unfold connect_established in rw e tt
    by_state disconnecting e = unfold connect_established in rw e tt
    by_state disconnected e = unfold connect_established in rw e tt

connected_state : (s : StateE) → is_connected s ≡ true → (began s ≡ 1) × (ended s ≡ 0)
connected_state connected h = (refl, refl)
connected_state connecting h = cc
connected_state disconnecting h = cc
connected_state disconnected h = cc

pub destroyed-state :
    (t u : TcpConnection) (effects : List TcpConnection.Effect)
    → connect_destroyed t ≡ some (u, effects)
    → (began u.state ≡ began t.state) × (ended t.state ≤ ended u.state)
destroyed-state t u effects made =
    subst (OnResult Destroyed) made (by_state (Bool-cases (is_connected t.state)))
  where
    Destroyed : TcpConnection → List TcpConnection.Effect → Type 0
    Destroyed v es = (began v.state ≡ began t.state) × (ended t.state ≤ ended v.state)

    by_state :
        (is_connected t.state ≡ true) ⊎ (is_connected t.state ≡ false)
        → OnResult Destroyed (connect_destroyed t)
    by_state (inl up) = elim (Option-cases (remove (disable_all t.channel))) [
      | inl stuck ↦ unfold connect_destroyed in rw (up, stuck) tt
      | inr (c, done) ↦
          let (b, d) = connected_state t.state up in
          unfold connect_destroyed in rw (up, done) (sym b, omega (arith, d))
    ]
    by_state (inr down) = elim (Option-cases (remove t.channel)) [
      | inl stuck ↦ unfold connect_destroyed in rw (down, stuck) tt
      | inr (c, done) ↦ unfold connect_destroyed in rw (down, done) (refl, omega arith)
    ]

pub establishes-IsTracked :
    (s : System) (conn : ℕ) (before behind : List Functor) (u : TcpConnection)
    (effects : List TcpConnection.Effect)
    → s.waiting ≡ before ++ establishes conn ∷ behind
    → connect_established (s.server.heap conn).connection ≡ some (u, effects)
    → IsTracked s
    → IsTracked (record s { server = with_connection s.server conn u; waiting = before ++ behind })
establishes-IsTracked s conn before behind u effects e made t =
    let (es, rs, ds) = others s.waiting before behind (establishes conn) conn e in
    let one = one_if-same conn in
    let lives = known s conn t (omega (arith, es, one)) in
    let now = t.tracks conn lives in
    let (b0, b1, d0, d1) = established-state (s.server.heap conn).connection u effects made in
    changed s conn u (before ++ behind) lives
      (λ p other.
        let (es', rs', ds') = others s.waiting before behind (establishes conn) p e in
        let zero = one_if-other conn p other in
        (omega (arith, es', zero), omega (arith, rs'), omega (arith, ds')))
      (record {
        named = now.named;
        starting = omega (arith, now.starting, es, one, b0, b1);
        removing = omega (arith, now.removing, rs, d0, d1);
        destroying = omega (arith, now.destroying, ds);
      })
      t

pub destroys-IsTracked :
    (s : System) (conn : ℕ) (before behind : List Functor) (u : TcpConnection)
    (effects : List TcpConnection.Effect)
    → s.waiting ≡ before ++ destroys conn ∷ behind
    → connect_destroyed (s.server.heap conn).connection ≡ some (u, effects)
    → IsTracked s
    → IsTracked (record s { server = with_connection s.server conn u; waiting = before ++ behind })
destroys-IsTracked s conn before behind u effects e made t =
    let (es, rs, ds) = others s.waiting before behind (destroys conn) conn e in
    let one = one_if-same conn in
    let lives = known s conn t (omega (arith, ds, one)) in
    let now = t.tracks conn lives in
    let (b, d) = destroyed-state (s.server.heap conn).connection u effects made in
    let d0 = ended-le (s.server.heap conn).connection.state in
    let d1 = ended-le u.state in
    changed s conn u (before ++ behind) lives
      (λ p other.
        let (es', rs', ds') = others s.waiting before behind (destroys conn) p e in
        let zero = one_if-other conn p other in
        (omega (arith, es'), omega (arith, rs'), omega (arith, ds', zero)))
      (record {
        named = now.named;
        starting = omega (arith, now.starting, es, b);
        removing = omega (arith, now.removing, now.destroying, rs, ds, one, d, d0, d1);
        destroying = omega (arith, now.destroying, ds);
      })
      t

pub acts-IsTracked :
    (s : System) (conn : ℕ) (c : Call) (u : TcpConnection) (effects : List TcpConnection.Effect)
    → conn < s.allocated
    → is_between c ≡ true
    → step c (s.server.heap conn).connection ≡ some (u, effects)
    → IsTracked s
    → IsTracked (record s {
      server = with_connection s.server conn u;
      waiting = s.waiting ++ removals s.server conn (closes effects);
    })
acts-IsTracked s conn c u effects lives between made t =
    let m = moved in
    let now = t.tracks conn lives in
    changed s conn u (s.waiting ++ removals s.server conn (closes effects)) lives
      (λ p other.
        let (e, r, d) = counts-removals s.server conn (closes effects) p in
        let zero : (if conn == p then closes effects else 0) ≡ 0 =
          rw (ne→== conn p (λ i. other (sym i))) refl in
        (
          omega (arith, added (is_establishes p), e),
          omega (arith, added (is_removes p), r, zero),
          omega (arith, added (is_destroys p), d),
        ))
      (let (e, r, d) = counts-removals s.server conn (closes effects) conn in
        let all : (if conn == conn then closes effects else 0) ≡ closes effects =
          rw (eq→== conn conn refl) refl in
        record {
          named = now.named;
          starting = omega (arith, now.starting, m.same_start, added (is_establishes conn), e);
          removing = omega (arith, now.removing, m.closed, added (is_removes conn), r, all);
          destroying = omega (arith, now.destroying, added (is_destroys conn), d);
        })
      t
  where
    moved : Moves (s.server.heap conn).connection u effects
    moved =
        subst (OnResult (Moves (s.server.heap conn).connection)) made
          (step-Moves c (s.server.heap conn).connection between)

    added :
        (is : Functor → Bool)
        → counts is (s.waiting ++ removals s.server conn (closes effects))
          ≡ counts is s.waiting + counts is (removals s.server conn (closes effects))
    added is = counts-append is s.waiting (removals s.server conn (closes effects))

-- The names of two connections differ.
names_differ :
    (s : System) (p q : ℕ)
    → IsTracked s
    → p < s.allocated
    → q < s.allocated
    → q ≢ p
    → eq_bytes (s.server.heap p).name (s.server.heap q).name ≡ false
names_differ s p q t hp hq ne =
    let np = (t.tracks p hp).named in
    let nq = (t.tracks q hq).named in
    eq_bytes_ne (s.server.heap p).name (s.server.heap q).name (λ e.
      let same =
        conn_name-injective s.server.name s.server.ip_port (suc p) (suc q) t.short
          (omega (arith, hp, t.small)) (omega (arith, hq, t.small)) (sym np ∙ e ∙ nq) in
      ne (omega (arith, same)))

pub removes-IsTracked :
    (s : System) (conn : ℕ) (before behind : List Functor)
    → s.waiting ≡ before ++ removes conn ∷ behind
    → IsTracked s
    → IsTracked (record s {
      server = record s.server {
        connections = erase (s.server.heap conn).name s.server.connections;
      };
      waiting = (before ++ behind) ++ destroys conn ∷ [];
    })
removes-IsTracked s conn before behind e t =
    let (es, rs, ds) = others s.waiting before behind (removes conn) conn e in
    let one = one_if-same conn in
    let lives = known s conn t (omega (arith, rs, one)) in
    record {
      ordered = erase-IsMap name s.server.connections t.ordered;
      next = t.next;
      small = t.small;
      short = t.short;
      tracks = λ p h. tracks lives p h;
      unknown = λ p h.
          let (es', rs', ds') = others s.waiting before behind (removes conn) p e in
          let zero = one_if-other conn p (λ i. omega (arith, i, h, lives)) in
          omega (
            arith,
            t.unknown p h,
            es',
            rs',
            ds',
            zero,
            added (is_establishes p),
            added (is_removes p),
            added (is_destroys p),
          );
    }
  where
    name : List ℕ
    name = (s.server.heap conn).name

    added :
        (is : Functor → Bool)
        → counts is ((before ++ behind) ++ destroys conn ∷ [])
          ≡ counts is (before ++ behind) + (one_if (is (destroys conn)) + 0)
    added is = counts-append is (before ++ behind) (destroys conn ∷ [])

    tracks :
        conn < s.allocated
        → (p : ℕ) → p < s.allocated
        → Tracks s.server.name s.server.ip_port p
            (s.server.heap p)
            (lookup (s.server.heap p).name (erase name s.server.connections))
            (counts (is_establishes p) ((before ++ behind) ++ destroys conn ∷ []))
            (counts (is_removes p) ((before ++ behind) ++ destroys conn ∷ []))
            (counts (is_destroys p) ((before ++ behind) ++ destroys conn ∷ []))
    tracks lives p h = elim (eq_or_ne p conn) [
      | inl is ↦
          subst
            (λ p'.
              Tracks s.server.name s.server.ip_port p' (s.server.heap p')
                (lookup (s.server.heap p').name (erase name s.server.connections))
                (counts (is_establishes p') ((before ++ behind) ++ destroys conn ∷ []))
                (counts (is_removes p') ((before ++ behind) ++ destroys conn ∷ []))
                (counts (is_destroys p') ((before ++ behind) ++ destroys conn ∷ [])))
            (sym is) here
      | inr other ↦
          let (es, rs, ds) = others s.waiting before behind (removes conn) p e in
          let zero = one_if-other conn p other in
          carried refl
            (lookup-erase name (s.server.heap p).name s.server.connections t.ordered
              ∙ ap (λ b. if b then none else entry_of s p) (names_differ s conn p t lives h other))
            (omega (arith, added (is_establishes p), es))
            (omega (arith, added (is_removes p), rs, zero))
            (omega (arith, added (is_destroys p), ds, zero)) (t.tracks p h)
    ]
      where
        here :
            Tracks s.server.name s.server.ip_port conn
              (s.server.heap conn)
              (lookup name (erase name s.server.connections))
              (counts (is_establishes conn) ((before ++ behind) ++ destroys conn ∷ []))
              (counts (is_removes conn) ((before ++ behind) ++ destroys conn ∷ []))
              (counts (is_destroys conn) ((before ++ behind) ++ destroys conn ∷ []))
        here =
            let (es, rs, ds) = others s.waiting before behind (removes conn) conn e in
            let one = one_if-same conn in
            let now = t.tracks conn lives in
            let gone : linked (lookup name (erase name s.server.connections)) conn ≡ 0 =
              ap (λ o. linked o conn)
                (lookup-erase name name s.server.connections t.ordered
                  ∙ ap (λ b. if b then none else lookup name s.server.connections)
                      (eq_bytes_refl name)) in
            let d0 = ended-le (s.server.heap conn).connection.state in
            let l0 = linked-le (entry_of s conn) conn in
            record {
              named = now.named;
              starting = omega (arith, now.starting, es, added (is_establishes conn));
              removing =
                  omega (arith, now.removing, rs, added (is_removes conn), one, gone, d0, l0);
              destroying = omega (
                arith,
                now.destroying,
                now.removing,
                rs,
                ds,
                added (is_destroys conn),
                one,
                gone,
                d0,
                l0,
              );
            }
