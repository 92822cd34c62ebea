-- ===== src/TcpConnection/Order.antt =====
-- muduo/net/TcpConnection.cpp: the order of the states, and the announcements of single methods.
use learn_muduo.Prelude.{
  ℕ, ◌+◌, ◌≤◌, ◌≡◌, ◌∙◌, refl, sym, ap, inl, inr, Bool, true, false, ◌&&◌, not, List, [], ◌∷◌, ◌++◌,
  none, some, arith, length, ltb, ◌==◌, Bool-cases, Option-cases, ◌>>◌, assert, take,
}
use learn_muduo.Buffer.{append, retrieve, readable_bytes}
use learn_muduo.Channel.{disable_all, is_writing}
use learn_muduo.TcpConnection.{
  TcpConnection, StateE, disconnected, connecting, connected, disconnecting, is_open, taken,
  is_disconnected, as_size, Effect, wrote_bytes, calls_connection, calls_close, Written, wrote,
  refused, attempt, written, high_water_effects, effect_if, from_offset, within, send_in_loop,
  handle_write, handle_close, drained, Stepped,
}

-- How often the connection callback has been due when a connection is in a state: for the way up, and
-- for the way down.
abbrev pub announced : StateE → ℕ
announced connecting = 0
announced connected = 1
announced disconnecting = 1
announced disconnected = 2

-- The order of the states.
abbrev pub order : StateE → ℕ
order connecting = 0
order connected = 1
order disconnecting = 2
order disconnected = 3

abbrev pub is_notice : Effect → ℕ
is_notice calls_connection = 1
is_notice e = 0

-- The calls of the connection callback among effects.
abbrev pub notices : List Effect → ℕ
notices [] = 0
notices (e ∷ es) = is_notice e + notices es

pub notices-append : (xs ys : List Effect) → notices (xs ++ ys) ≡ notices xs + notices ys
notices-append [] ys = omega arith
notices-append (x ∷ xs) ys = omega (arith, notices-append xs ys)

-- A step goes forward, and announces what it passes.
pub record Forward (t t' : TcpConnection) (effects : List Effect) : Type 0 where
  pub later : order t.state ≤ order t'.state
  pub told : announced t'.state ≡ announced t.state + notices effects

-- Whether a connection has started, and whether it has ended.
abbrev pub began : StateE → ℕ
began connecting = 0
began s = 1

abbrev pub ended : StateE → ℕ
ended disconnected = 1
ended s = 0

abbrev pub is_close : Effect → ℕ
is_close calls_close = 1
is_close e = 0

-- The calls of the close callback among effects.
abbrev pub closes : List Effect → ℕ
closes [] = 0
closes (e ∷ es) = is_close e + closes es

-- A step of a connection that neither starts it nor destroys it: it ends exactly where the close
-- callback is called.
pub record Moves (t t' : TcpConnection) (effects : List Effect) : Type 0 where
  pub forward : Forward t t' effects
  pub same_start : began t'.state ≡ began t.state
  pub closed : ended t'.state ≡ ended t.state + closes effects

abbrev is_mark : Effect → ℕ
is_mark e = is_notice e + is_close e

abbrev pub marks : List Effect → ℕ
marks [] = 0
marks (e ∷ es) = is_mark e + marks es

marks-notices : (es : List Effect) → marks es ≡ notices es + closes es
marks-notices [] = omega arith
marks-notices (e ∷ es) = omega (arith, marks-notices es)

pub marks-append : (xs ys : List Effect) → marks (xs ++ ys) ≡ marks xs + marks ys
marks-append [] ys = omega arith
marks-append (x ∷ xs) ys = omega (arith, marks-append xs ys)

marks-effect_if : (b : Bool) (e : Effect) → is_mark e ≡ 0 → marks (effect_if b e) ≡ 0
marks-effect_if true e h = omega (arith, h)
marks-effect_if false e h = refl

marks-attempt :
    (t : TcpConnection) (message : List ℕ) (w : Written) → marks (attempt t message w).effects ≡ 0
marks-attempt t message (wrote n) = unfold attempt written in ground arith
marks-attempt t message (refused e) = unfold attempt written in ground arith

-- Every result of a method, if it has one.
abbrev pub OnResult : (TcpConnection → List Effect → Type 0) → Stepped → Type 0
OnResult P none = Unit {0}
OnResult P (some (t, effects)) = P t effects

pub same-Moves :
    (t t' : TcpConnection) (effects : List Effect)
    → t'.state ≡ t.state
    → marks effects ≡ 0
    → Moves t t' effects
same-Moves t t' effects e n =
    let none_told : notices effects ≡ 0 = omega (arith, n, marks-notices effects) in
    let none_closed : closes effects ≡ 0 = omega (arith, n, marks-notices effects) in
    record {
      forward = record { later = rw e (omega arith); told = rw e (omega (arith, none_told)) };
      same_start = ap began e;
      closed = rw e (omega (arith, none_closed));
    }

marks-high_water : (t : TcpConnection) (n : ℕ) → marks (high_water_effects t n) ≡ 0
marks-high_water t n = marks-effect_if _ _ refl

pub send_in_loop-Moves :
    (t : TcpConnection) (before : ℕ) (message : List ℕ) (w : Written)
    → OnResult (Moves t) (send_in_loop t before message w)
send_in_loop-Moves t before message w = elim (Bool-cases (is_disconnected t.state)) [
  | inl gone ↦ unfold send_in_loop in rw gone (same-Moves t t [] refl refl)
  | inr there ↦
      let a = attempt t message w in
      let quiet = marks-attempt t message w in
      elim (Bool-cases (within a.nwrote (length message))) [
        | inr beyond ↦ unfold send_in_loop in rw (there, beyond) tt
        | inl fits ↦ elim (Bool-cases (not a.fault && ltb 0 a.remaining)) [
          | inr nothing ↦
              unfold send_in_loop in rw (there, fits, nothing) (same-Moves t t a.effects refl quiet)
          | inl more ↦
              elim (Option-cases
                (append t.output (take a.remaining (from_offset a.nwrote before message)))) [
                  | inl refused' ↦ unfold send_in_loop in rw (there, fits, more, refused') tt
                  | inr (output, made) ↦
                      unfold send_in_loop in
                      rw (there, fits, more, made)
                        (same-Moves t _ (a.effects ++ high_water_effects t a.remaining) refl (
                          omega (
                            arith,
                            marks-append a.effects (high_water_effects t a.remaining),
                            quiet,
                            marks-high_water t a.remaining,
                          )))
                ]
        ]
      ]
]

pub handle_close-Moves :
    (t u : TcpConnection) → u.state ≡ t.state → OnResult (Moves t) (handle_close u)
unfolding handle_close
handle_close-Moves t u same = closes u.state refl
  where
    closes :
        (s : StateE)
        → u.state ≡ s
        → OnResult (Moves t) (
            assert (is_open s)
            >> some (
              record u { state = disconnected; channel = disable_all u.channel },
              calls_connection ∷ calls_close ∷ [],
            ))
    closes connected e = record {
      forward = record {
        later = rw (sym same ∙ e) (omega arith);
        told = rw (sym same ∙ e) (omega arith);
      };
      same_start = rw (sym same ∙ e) refl;
      closed = rw (sym same ∙ e) (omega arith);
    }
    closes disconnecting e = record {
      forward = record {
        later = rw (sym same ∙ e) (omega arith);
        told = rw (sym same ∙ e) (omega arith);
      };
      same_start = rw (sym same ∙ e) refl;
      closed = rw (sym same ∙ e) (omega arith);
    }
    closes connecting e = tt
    closes disconnected e = tt

marks-drained : (t : TcpConnection) → ((drained t).0.state ≡ t.state) × (marks (drained t).1 ≡ 0)
unfolding drained
marks-drained t = ground arith

pub handle_write-Moves : (t : TcpConnection) (w : Written) → OnResult (Moves t) (handle_write t w)
handle_write-Moves t w = elim (Bool-cases (is_writing t.channel)) [
  | inr idle ↦ unfold handle_write in rw idle (same-Moves t t [] refl refl)
  | inl waiting ↦ elim (Bool-cases (ltb 0 (as_size w))) [
    | inr nothing ↦ unfold handle_write in rw (waiting, nothing) (same-Moves t t [] refl refl)
    | inl more ↦ elim (Option-cases (retrieve t.output (as_size w))) [
      | inl too_much ↦ unfold handle_write in rw (waiting, more, too_much) tt
      | inr (output, made) ↦
          let t' = record t { output = output } in
          let (state, quiet) = marks-drained t' in
          elim (Bool-cases (readable_bytes output == 0)) [
            | inl empty ↦
                unfold handle_write in
                rw (waiting, more, made)
                  (rw empty (
                    same-Moves t (drained t').0 (wrote_bytes (taken w t.output) ∷ (drained t').1)
                      state (omega (arith, quiet))))
            | inr left ↦
                unfold handle_write in
                rw (waiting, more, made) (rw left (same-Moves t t' _ refl refl))
          ]
    ]
  ]
]
