-- ===== src/TcpConnection/Invariant.antt =====
-- muduo/net/TcpConnection.cpp: every connection that its loop and its users can reach is sound.
use mathlib.Core.Bool.{false≢true}
use learn_muduo.Prelude.{
  ℕ, ◌+◌, ◌≡◌, ◌≢◌, refl, sym, subst, inl, inr, Bool, true, false, ◌||◌, not, List, some, arith,
  length, length-replicate, Bool-cases,
}
use learn_muduo.Buffer.{
  Buffer, Received, failed, got, content, append, retrieve, read_fd, vector_lengths, readable_bytes,
  IsValid, initial_size, cheap_prepend,
}
use learn_muduo.Channel.{
  Channel, is_writing, is_reading, remove, disable_all, enable_reading, disable_reading, tie,
  is_none_event,
}
use learn_muduo.Channel.Bits.{enable_reading-Watches, disable_reading-Watches, nothing}
use learn_muduo.Buffer
use learn_muduo.Channel
use learn_muduo.TcpConnection.{
  TcpConnection, StateE, disconnected, connecting, connected, disconnecting, is_open, is_connected,
  Effect, Written, wrote, refused, Stepped, init, send, send_in_loop, handle_write,
  shutdown_in_loop, shutdown, force_close, force_close_with_delay, force_close_in_loop,
  start_read_in_loop, stop_read_in_loop,
}
use learn_muduo.TcpConnection.Laws.{IsSound, Answers, send_in_loop-IsSound, handle_write-IsSound}
use learn_muduo.TcpConnection.Order.{OnResult}
use learn_muduo.TcpConnection.Run.{
  Call, establishes, destroys, hangs_up, force_closes, force_closes_later, starts_read, stops_read,
  runs_shutdown, runs_force_close, sends, runs_send, shuts, reads, becomes_writable, step,
}
use learn_muduo.TcpConnection.Handlers.{
  Allowed, Sound, rewired-IsSound, handle_close-IsSound, connect_established-IsSound,
  connect_destroyed-IsSound, handle_read-IsSound, half_closed-IsSound,
}

force_close-IsSound : (t : TcpConnection) → IsSound t → IsSound (force_close t).0
force_close-IsSound t s = elim (Bool-cases (is_open t.state)) [
  | inl up ↦ unfold force_close in rw up (half_closed-IsSound t s up)
  | inr down ↦ unfold force_close in rw down s
]

is_connected-is_open : (st : StateE) → is_connected st ≡ true → is_open st ≡ true
is_connected-is_open connected e = refl
is_connected-is_open connecting e = cc
is_connected-is_open disconnecting e = refl
is_connected-is_open disconnected e = cc

up-started : (st : StateE) → is_connected st ≡ true → st ≢ connecting
up-started connected e h = cc
up-started connecting e h = cc
up-started disconnecting e h = cc
up-started disconnected e h = cc

shutdown-IsSound : (t : TcpConnection) (in_loop : Bool) → IsSound t → IsSound (shutdown t in_loop).0
unfolding shutdown shutdown_in_loop
shutdown-IsSound t true s = elim (Bool-cases (is_connected t.state)) [
  | inl up ↦ rw up (half_closed-IsSound t s (is_connected-is_open t.state up))
  | inr down ↦ rw down s
]
shutdown-IsSound t false s = elim (Bool-cases (is_connected t.state)) [
  | inl up ↦ rw up (half_closed-IsSound t s (is_connected-is_open t.state up))
  | inr down ↦ rw down s
]

force_close_with_delay-IsSound :
    (t : TcpConnection) → IsSound t → IsSound (force_close_with_delay t).0
force_close_with_delay-IsSound t s = elim (Bool-cases (is_open t.state)) [
  | inl up ↦ unfold force_close_with_delay in rw up (half_closed-IsSound t s up)
  | inr down ↦ unfold force_close_with_delay in rw down s
]

start_read_in_loop-IsSound : (t : TcpConnection) → IsSound t → IsSound (start_read_in_loop t).0
start_read_in_loop-IsSound t s = elim (Bool-cases (not t.reading || not (is_reading t.channel))) [
  | inl more ↦
      let w = enable_reading-Watches t.channel s.interest in
      unfold start_read_in_loop in
      rw more
        (rewired-IsSound t t.state true (enable_reading t.channel) s w.kept w.writes refl (λ e. e))
  | inr done ↦ unfold start_read_in_loop in rw done s
]

stop_read_in_loop-IsSound : (t : TcpConnection) → IsSound t → IsSound (stop_read_in_loop t).0
stop_read_in_loop-IsSound t s = elim (Bool-cases (t.reading || is_reading t.channel)) [
  | inl more ↦
      let w = disable_reading-Watches t.channel s.interest in
      unfold stop_read_in_loop in
      rw more (
        rewired-IsSound t t.state false (disable_reading t.channel) s w.kept w.writes refl (λ e. e))
  | inr done ↦ unfold stop_read_in_loop in rw done s
]

of_some :
    (x : Stepped) (u : TcpConnection) (effects : List Effect)
    → x ≡ some (u, effects)
    → IsSound u
    → OnResult Sound x
of_some x u effects made s = subst (OnResult Sound) (sym made) s

sent-IsSound :
    (t : TcpConnection) (before : ℕ) (message : List ℕ) (w : Written)
    → IsSound t
    → t.state ≢ connecting
    → Answers w (length message)
    → OnResult Sound (send_in_loop t before message w)
sent-IsSound t before message w s up a =
    let (u, effects, made, s', _) = send_in_loop-IsSound t before message w s up a in
    of_some (send_in_loop t before message w) u effects made s'

step-IsSound : (c : Call) (t : TcpConnection) → IsSound t → Allowed c t → OnResult Sound (step c t)
unfolding step
step-IsSound establishes t s a = connect_established-IsSound t s
step-IsSound destroys t s a = connect_destroyed-IsSound t s
step-IsSound hangs_up t s a = handle_close-IsSound t s
step-IsSound force_closes t s a = force_close-IsSound t s
step-IsSound force_closes_later t s a = force_close_with_delay-IsSound t s
step-IsSound starts_read t s a = start_read_in_loop-IsSound t s
step-IsSound stops_read t s a = stop_read_in_loop-IsSound t s
step-IsSound runs_shutdown t s a = unfold shutdown_in_loop in s
step-IsSound runs_force_close t s a = elim (Bool-cases (is_open t.state)) [
  | inl up ↦ unfold force_close_in_loop in rw up (handle_close-IsSound t s)
  | inr down ↦ unfold force_close_in_loop in rw down s
]
step-IsSound (sends false before message w) t s a = elim (Bool-cases (is_connected t.state)) [
  | inl up ↦ unfold send in rw up s
  | inr down ↦ unfold send in rw down s
]
step-IsSound (sends true before message w) t s a = elim (Bool-cases (is_connected t.state)) [
  | inl up ↦ unfold send in rw up (sent-IsSound t before message w s (up-started t.state up) a)
  | inr down ↦ unfold send in rw down s
]
step-IsSound (runs_send before message w) t s (up, a) = sent-IsSound t before message w s up a
step-IsSound (shuts in_loop) t s a = shutdown-IsSound t in_loop s
step-IsSound (reads cb readv) t s a = handle_read-IsSound cb t readv a s
step-IsSound (becomes_writable (wrote n)) t s a =
    let (u, effects, made, s', _) = handle_write-IsSound t n s a in
    of_some (handle_write t (wrote n)) u effects made s'
step-IsSound (becomes_writable (refused e)) t s a = absurd a

-- The connections that calls of the loop and of the users lead to.
pub data Reachable : TcpConnection → Type 0 where
  fresh : (sockfd : ℕ) → Reachable (init sockfd)
  calls :
      (c : Call) {t u : TcpConnection} {effects : List Effect}
      → Reachable t
      → Allowed c t
      → step c t ≡ some (u, effects)
      → Reachable u

init-IsValid : (n : ℕ) → IsValid (Buffer.init n)
unfolding Buffer.init
init-IsValid n = record {
  ordered = omega arith;
  inside = omega (arith, length-replicate {A = ℕ} (cheap_prepend + n) 0);
  large = omega (arith, length-replicate {A = ℕ} (cheap_prepend + n) 0);
}

init-IsSound : (sockfd : ℕ) → IsSound (init sockfd)
unfolding init Channel.init is_writing
init-IsSound sockfd = record {
  input_valid = init-IsValid initial_size;
  output_valid = init-IsValid initial_size;
  interest = nothing refl;
  waits = λ e. absurd (false≢true e);
  flushes = λ e. absurd (false≢true e);
  rests = λ _. refl;
  starts = λ _. unfold Buffer.init in refl;
}

-- Every reachable connection is sound: its buffers are valid, its channel watches a set of events that
-- the channel's methods make, and while it is open it waits to write exactly where output is pending.
pub reachable-IsSound : {t : TcpConnection} → Reachable t → IsSound t
reachable-IsSound (fresh sockfd) = init-IsSound sockfd
reachable-IsSound (calls c {t} {u} {effects} r a made) =
    subst (OnResult Sound) made (step-IsSound c t (reachable-IsSound r) a)
