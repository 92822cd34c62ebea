-- ===== src/TcpServer/Tracking.antt =====
-- muduo/net/TcpServer.cpp: the functors that wait for a connection agree with its state and with the map.
use learn_muduo.Prelude.{
  ℕ, zero, suc, ◌+◌, ◌^◌, ◌≤◌, ◌<◌, ◌≡◌, ◌∙◌, ap, Bool, false, List, [], ◌∷◌, ◌++◌, Option, none,
  some, arith, length, ◌==◌, if◌then◌else◌, lookup, IsMap,
}
use learn_muduo.TcpConnection.Order.{began, ended}
use learn_muduo.TcpServer.{
  TcpServer, Held, Functor, establishes, removes, destroys, conn_name, remove_connection,
}
use learn_muduo.TcpServer.Names.{max_ip_port}
use learn_muduo.TcpServer.System.{System, removals}

abbrev pub one_if : Bool → ℕ
one_if b = if b then 1 else 0

abbrev pub counts : (Functor → Bool) → List Functor → ℕ
counts is [] = 0
counts is (f ∷ fs) = one_if (is f) + counts is fs

abbrev pub is_establishes : ℕ → Functor → Bool
is_establishes p (establishes q) = q == p
is_establishes p f = false

abbrev pub is_removes : ℕ → Functor → Bool
is_removes p (removes q) = q == p
is_removes p f = false

abbrev pub is_destroys : ℕ → Functor → Bool
is_destroys p (destroys q) = q == p
is_destroys p f = false

pub counts-append :
    (is : Functor → Bool) (xs ys : List Functor)
    → counts is (xs ++ ys) ≡ counts is xs + counts is ys
counts-append is [] ys = omega arith
counts-append is (x ∷ xs) ys = omega (arith, counts-append is xs ys)

-- A functor that is taken out of the waiting ones.
pub counts-taken :
    (is : Functor → Bool) (waiting before behind : List Functor) (f : Functor)
    → waiting ≡ before ++ f ∷ behind
    → counts is waiting ≡ one_if (is f) + counts is (before ++ behind)
counts-taken is waiting before behind f e =
    omega (
      arith,
      ap (counts is) e,
      counts-append is before (f ∷ behind),
      counts-append is before behind,
    )

-- Whether the entry of a name is a connection.
abbrev pub linked : Option ℕ → ℕ → ℕ
linked none p = 0
linked (some q) p = one_if (q == p)

-- A connection waits to be established exactly until it starts; it is in the map until it is removed;
-- the removal waits exactly while it has ended and is in the map; and it is destroyed only when it is
-- not in the map any more. The numbers are those of its waiting functors.
pub record Tracks (name ip_port : List ℕ) (p : ℕ) (held : Held) (entry : Option ℕ)
    (starts removals destructions : ℕ) : Type 0 where
  pub named : held.name ≡ conn_name name ip_port (suc p)
  pub starting : starts + began held.connection.state ≡ 1
  pub removing : removals + 1 ≡ ended held.connection.state + linked entry p
  pub destroying : destructions + linked entry p ≤ 1

abbrev pub entry_of : System → ℕ → Option ℕ
entry_of s p = lookup (s.server.heap p).name s.server.connections

abbrev pub TracksIn : System → ℕ → Type 0
TracksIn s p =
    Tracks s.server.name s.server.ip_port p (s.server.heap p) (entry_of s p)
      (counts (is_establishes p) s.waiting) (counts (is_removes p) s.waiting)
      (counts (is_destroys p) s.waiting)

-- The functors that wait for a connection.
abbrev pub waits_for : ℕ → List Functor → ℕ
waits_for p fs =
    counts (is_establishes p) fs + (counts (is_removes p) fs + counts (is_destroys p) fs)

pub record IsTracked (s : System) : Type 0 where
  pub ordered : IsMap s.server.connections
  pub next : s.server.next_conn_id ≡ suc s.allocated
  pub small : s.allocated < 2 ^ 31
  pub short : length s.server.ip_port ≤ max_ip_port
  pub tracks : (p : ℕ) → p < s.allocated → TracksIn s p
  pub unknown : (p : ℕ) → s.allocated ≤ p → waits_for p s.waiting ≡ 0

-- What does not touch a connection keeps it tracked.
pub carried :
    {name ip_port : List ℕ} {p : ℕ} {held held' : Held} {entry entry' : Option ℕ}
    {e e' r r' d d' : ℕ}
    → held' ≡ held
    → entry' ≡ entry
    → e' ≡ e
    → r' ≡ r
    → d' ≡ d
    → Tracks name ip_port p held entry e r d
    → Tracks name ip_port p held' entry' e' r' d'
carried {p} h n e r d t = record {
  named = ap (λ k. k.name) h ∙ t.named;
  starting = omega (arith, t.starting, e, ap (λ k. began k.connection.state) h);
  removing =
      omega (arith, t.removing, r, ap (λ k. ended k.connection.state) h, ap (λ k. linked k p) n);
  destroying = omega (arith, t.destroying, d, ap (λ k. linked k p) n);
}

-- Removals for one connection count for it alone.
pub counts-removals :
    (s : TcpServer) (conn n p : ℕ)
    → (counts (is_establishes p) (removals s conn n) ≡ 0)
      × (counts (is_removes p) (removals s conn n) ≡ (if conn == p then n else 0))
      × (counts (is_destroys p) (removals s conn n) ≡ 0)
unfolding remove_connection
counts-removals s conn zero p = ground arith
counts-removals s conn (suc n) p = ground (arith, counts-removals s conn n p)
