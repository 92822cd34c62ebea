-- ===== src/TcpClient/Attempts.antt =====
-- muduo/net/TcpClient.cpp: what the connector hands to its client.
use learn_muduo.Prelude.{
  ℕ, suc, ◌+◌, ◌≤◌, ◌≡◌, refl, inl, inr, Bool, true, false, List, [], ◌∷◌, none, some, arith,
  Bool-cases, Option-cases, if◌then◌else◌, ◌>>=◌, ◌>>◌, assert,
}
use learn_muduo.Connector.{
  Connector, States, disconnected, connecting, connected, is_connecting, is_disconnected, Effect,
  opens, passes, Stepped, retry, begin_connecting, Branch, goes_on, tries_again, gives_up,
  branch_of, on_branch, start_in_loop, connect, start, stop, remove_and_reset_channel, stop_in_loop,
  reset_channel, Report, so_error, self_connect, succeeds, on_report, handle_write, handle_error,
  is_null,
}
use learn_muduo.Connector.Sockets.{
  Call, starts, stops, resets, stops_in_loop, fails, starts_in_loop, restarts, becomes_writable,
  step,
}

-- How many sockets the connector hands over.
abbrev pub passed : List Effect → ℕ
passed [] = 0
passed (passes fd ∷ es) = suc (passed es)
passed (e ∷ es) = passed es

abbrev pub is_up : States → ℕ
is_up connected = 1
is_up s = 0

-- The calls other than `restart`, which only the client makes.
abbrev pub is_own : Call → Bool
is_own (restarts sockfd e) = false
is_own c = true

-- A call of the connector hands over at most one socket, and then ends in the state `kConnected`;
-- a connector in that state hands over none, and stays in it.
abbrev pub Hands : Connector → Connector → List Effect → Type 0
Hands c c' effects = passed effects + is_up c.state ≤ is_up c'.state

abbrev pub OnResult : (Connector → List Effect → Type 0) → Stepped → Type 0
OnResult P none = Unit {0}
OnResult P (some (c, effects)) = P c effects

down_of_connecting : (s : States) → is_connecting s ≡ true → is_up s ≡ 0
down_of_connecting disconnected h = refl
down_of_connecting connecting h = refl
down_of_connecting connected h = cc

down_of_disconnected : (s : States) → is_disconnected s ≡ true → is_up s ≡ 0
down_of_disconnected disconnected h = refl
down_of_disconnected connecting h = refl
down_of_disconnected connected h = cc

retry-passed : (c : Connector) (fd : ℕ) → passed (retry c fd).1 ≡ 0
unfolding retry
retry-passed c fd = ground arith

on_report-passed :
    (r : Report) (c : Connector) (fd : ℕ)
    → passed (on_report r c fd).1 ≤ is_up (on_report r c fd).0.state
unfolding retry
on_report-passed so_error c fd = ground arith
on_report-passed self_connect c fd = ground arith
on_report-passed succeeds c fd = ground arith

on_branch-Hands :
    (b : Branch) (c d : Connector) (fd : ℕ)
    → is_up d.state ≡ 0
    → OnResult (Hands d) (on_branch b c fd)
on_branch-Hands goes_on c d fd h = elim (Bool-cases (is_null c.channel)) [
  | inl free ↦ unfold begin_connecting in rw free (omega (arith, h))
  | inr busy ↦ unfold begin_connecting in rw busy tt
]
on_branch-Hands tries_again c d fd h = omega (arith, h, retry-passed c fd)
on_branch-Hands gives_up c d fd h = omega (arith, h)

opened-Hands :
    (c : Connector) (fd : ℕ) (r : Stepped)
    → OnResult (Hands c) r
    → OnResult (Hands c) (r >>= λ (d, effects). some (d, opens fd ∷ effects))
opened-Hands c fd none h = tt
opened-Hands c fd (some (d, effects)) h = h

gated-Hands :
    (idle asked : Bool) (c : Connector) (r : Stepped)
    → (idle ≡ true → OnResult (Hands c) r)
    → OnResult (Hands c) (assert idle >> (if asked then r else some (c, [])))
gated-Hands false asked c r h = tt
gated-Hands true true c r h = h refl
gated-Hands true false c r h = omega arith

pub step-Hands :
    (call : Call) (c : Connector) → is_own call ≡ true → OnResult (Hands c) (step call c)
unfolding step
step-Hands starts c own = unfold start in omega arith
step-Hands stops c own = unfold stop in omega arith
step-Hands resets c own = unfold reset_channel in omega arith
step-Hands stops_in_loop c own = elim (Bool-cases (is_connecting c.state)) [
  | inl trying ↦
      elim (Option-cases (remove_and_reset_channel (record c { state = disconnected }))) [
        | inl stuck ↦ unfold stop_in_loop in rw trying (rw stuck tt)
        | inr ((d, fd), made) ↦
            unfold stop_in_loop in
            rw trying
              (rw made (omega (arith, down_of_connecting c.state trying, retry-passed d fd)))
      ]
  | inr idle ↦ unfold stop_in_loop in rw idle (omega arith)
]
step-Hands fails c own = elim (Bool-cases (is_connecting c.state)) [
  | inl trying ↦ elim (Option-cases (remove_and_reset_channel c)) [
    | inl stuck ↦ unfold handle_error in rw trying (rw stuck tt)
    | inr ((d, fd), made) ↦
        unfold handle_error in
        rw trying (rw made (omega (arith, down_of_connecting c.state trying, retry-passed d fd)))
  ]
  | inr idle ↦ unfold handle_error in rw idle (omega arith)
]
step-Hands (starts_in_loop fd e) c own =
    unfold start_in_loop connect in
    gated-Hands (is_disconnected c.state) c.connect_asked c
      (on_branch (branch_of e) c fd >>= λ (d, effects). some (d, opens fd ∷ effects))
      (λ idle.
        opened-Hands c fd (on_branch (branch_of e) c fd)
          (on_branch-Hands (branch_of e) c c fd (down_of_disconnected c.state idle)))
step-Hands (restarts fd e) c own = cc
step-Hands (becomes_writable report) c own = elim (Bool-cases (is_connecting c.state)) [
  | inl trying ↦ elim (Option-cases (remove_and_reset_channel c)) [
    | inl stuck ↦ unfold handle_write in rw trying (rw stuck tt)
    | inr ((d, fd), made) ↦
        unfold handle_write in
        rw trying
          (rw made (omega (arith, down_of_connecting c.state trying, on_report-passed report d fd)))
  ]
  | inr idle ↦ elim (Bool-cases (is_disconnected c.state)) [
    | inl down ↦ unfold handle_write in rw idle (rw down (omega arith))
    | inr up ↦ unfold handle_write in rw idle (rw up tt)
  ]
]
