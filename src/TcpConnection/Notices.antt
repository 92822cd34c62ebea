-- ===== src/TcpConnection/Notices.antt =====
-- muduo/net/TcpConnection.cpp: the states only go forward, and each side of a connection's life is
-- announced once.
use learn_muduo.Prelude.{
  ℕ, ◌≡◌, refl, subst, inl, inr, true, false, List, [], ◌∷◌, ◌++◌, some, arith, length, ltb,
  if◌then◌else◌, Bool-cases, Option-cases, Bool, none,
}
use learn_muduo.Buffer.{Buffer, Received, failed, got, read_fd}
use learn_muduo.Channel.{remove, disable_all}
use learn_muduo.TcpConnection.{
  TcpConnection, StateE, disconnected, connecting, connected, disconnecting, is_open, is_connected,
  Effect, calls_message, send, shutdown, shutdown_in_loop, force_close, force_close_with_delay,
  force_close_in_loop, start_read_in_loop, stop_read_in_loop, connect_established,
  connect_destroyed, handle_read, handle_close, Stepped,
}
use learn_muduo.TcpConnection.Run.{
  Call, establishes, destroys, hangs_up, force_closes, force_closes_later, starts_read, stops_read,
  runs_shutdown, runs_force_close, sends, runs_send, shuts, reads, becomes_writable, step, run,
}
use learn_muduo.TcpConnection.Order.{
  notices-append, Forward, Moves, OnResult, same-Moves, send_in_loop-Moves, handle_close-Moves,
  handle_write-Moves,
}

handle_read-Moves :
    (cb : Buffer → Buffer) (t : TcpConnection) (readv : List ℕ → Received)
    → OnResult (Moves t) (handle_read cb t readv)
handle_read-Moves cb t readv = elim (Option-cases (read_fd readv t.input)) [
  | inl full ↦ unfold handle_read in rw full tt
  | inr ((input, r), made) ↦ unfold handle_read in rw made (received r input)
]
  where
    received :
        (r : Received) (input : Buffer)
        → OnResult (Moves t) (elim r [
          | failed errno ↦ some (record t { input = input }, [])
          | got bytes ↦
              if ltb 0 (length bytes)
              then some (record t { input = cb input }, calls_message ∷ [])
              else handle_close (record t { input = input })
        ])
    received (failed errno) input = same-Moves t _ [] refl refl
    received (got bytes) input = elim (Bool-cases (ltb 0 (length bytes))) [
      | inl more ↦
          rw more (same-Moves t (record t { input = cb input }) (calls_message ∷ []) refl refl)
      | inr none_left ↦ rw none_left (handle_close-Moves t (record t { input = input }) refl)
    ]

connected_of : (s : StateE) → is_connected s ≡ true → s ≡ connected
connected_of connected h = refl
connected_of connecting h = cc
connected_of disconnecting h = cc
connected_of disconnected h = cc

connect_destroyed-Forward : (t : TcpConnection) → OnResult (Forward t) (connect_destroyed t)
connect_destroyed-Forward t = elim (Bool-cases (is_connected t.state)) [
  | inl up ↦ elim (Option-cases (remove (disable_all t.channel))) [
    | inl stuck ↦ unfold connect_destroyed in rw (up, stuck) tt
    | inr (c, made) ↦
        unfold connect_destroyed in
        rw (up, made)
          (let e = connected_of t.state up in
            record { later = rw e (omega arith); told = rw e (omega arith) })
  ]
  | inr down ↦ elim (Option-cases (remove t.channel)) [
    | inl stuck ↦ unfold connect_destroyed in rw (down, stuck) tt
    | inr (c, made) ↦
        unfold connect_destroyed in
        rw (down, made) (same-Moves t (record t { channel = c }) [] refl refl).forward
  ]
]

-- The calls other than those that start a connection and destroy it.
abbrev pub is_between : Call → Bool
is_between establishes = false
is_between destroys = false
is_between c = true

pub step-Moves :
    (c : Call) (t : TcpConnection) → is_between c ≡ true → OnResult (Moves t) (step c t)
unfolding step
step-Moves establishes t own = cc
step-Moves destroys t own = cc
step-Moves hangs_up t own = handle_close-Moves t t refl
step-Moves force_closes t own = unfold force_close in ground arith
step-Moves force_closes_later t own = unfold force_close_with_delay in ground arith
step-Moves starts_read t own = unfold start_read_in_loop in ground arith
step-Moves stops_read t own = unfold stop_read_in_loop in ground arith
step-Moves runs_shutdown t own = unfold shutdown_in_loop in ground arith
step-Moves runs_force_close t own = elim (Bool-cases (is_open t.state)) [
  | inl open' ↦ unfold force_close_in_loop in rw open' (handle_close-Moves t t refl)
  | inr shut ↦ unfold force_close_in_loop in rw shut (same-Moves t t [] refl refl)
]
step-Moves (sends true before message w) t own = elim (Bool-cases (is_connected t.state)) [
  | inl up ↦ unfold send in rw up (send_in_loop-Moves t before message w)
  | inr down ↦ unfold send in rw down (same-Moves t t [] refl refl)
]
step-Moves (sends false before message w) t own = elim (Bool-cases (is_connected t.state)) [
  | inl up ↦ unfold send in rw up (same-Moves t t _ refl refl)
  | inr down ↦ unfold send in rw down (same-Moves t t [] refl refl)
]
step-Moves (runs_send before message w) t own = send_in_loop-Moves t before message w
step-Moves (shuts in_loop) t own = unfold shutdown shutdown_in_loop in ground arith
step-Moves (reads cb readv) t own = handle_read-Moves cb t readv
step-Moves (becomes_writable w) t own = handle_write-Moves t w

connect_established-Forward : (t : TcpConnection) → OnResult (Forward t) (connect_established t)
connect_established-Forward t = by_state t.state refl
  where
    by_state : (s : StateE) → t.state ≡ s → OnResult (Forward t) (connect_established t)
    by_state connecting e =
        unfold connect_established in rw e (record { later = omega arith; told = omega arith })
    by_state connected e = unfold connect_established in rw e tt
    by_state disconnecting e = unfold connect_established in rw e tt
    by_state disconnected e = unfold connect_established in rw e tt

Moves-Forward : (t : TcpConnection) (r : Stepped) → OnResult (Moves t) r → OnResult (Forward t) r
Moves-Forward t none m = tt
Moves-Forward t (some (u, effects)) m = m.forward

step-Forward : (c : Call) (t : TcpConnection) → OnResult (Forward t) (step c t)
step-Forward c t = elim (Bool-cases (is_between c)) [
  | inl own ↦ Moves-Forward t (step c t) (step-Moves c t own)
  | inr outer ↦ outer_case c outer
]
  where
    outer_case : (c : Call) → is_between c ≡ false → OnResult (Forward t) (step c t)
    outer_case establishes outer = unfold step in connect_established-Forward t
    outer_case destroys outer = unfold step in connect_destroyed-Forward t
    outer_case c outer = cc

together :
    (t u v : TcpConnection) (first rest : List Effect)
    → Forward t u first
    → Forward u v rest
    → Forward t v (first ++ rest)
together t u v first rest f g = record {
  later = omega (arith, f.later, g.later);
  told = omega (arith, f.told, g.told, notices-append first rest);
}

at_result :
    {t u : TcpConnection} {effects : List Effect} (r : Stepped)
    → r ≡ some (u, effects)
    → OnResult (Forward t) r
    → Forward t u effects
at_result {t} r h f = subst (OnResult (Forward t)) h f

runs-Forward : (cs : List Call) (t : TcpConnection) → OnResult (Forward t) (run cs t)
unfolding run
runs-Forward [] t = (same-Moves t t [] refl refl).forward
runs-Forward (c ∷ cs) t = elim (Option-cases (step c t)) [
  | inl stuck ↦ rw stuck tt
  | inr ((u, first), h) ↦ elim (Option-cases (run cs u)) [
    | inl stuck ↦ rw (h, stuck) tt
    | inr ((v, rest), made) ↦
        let f = at_result (step c t) h (step-Forward c t) in
        let g = at_result (run cs u) made (runs-Forward cs u) in
        rw (h, made) (together t u v first rest f g)
  ]
]

-- Whatever calls a connection gets in a run without a failed assertion, its state never goes back,
-- and the connection callback is called exactly as often as the states it passed ask for: once on the
-- way up to `connected`, and once more on the way to `disconnected`.
pub run-Forward :
    (cs : List Call) (t t' : TcpConnection) (effects : List Effect)
    → run cs t ≡ some (t', effects)
    → Forward t t' effects
run-Forward cs t t' effects e = at_result (run cs t) e (runs-Forward cs t)
