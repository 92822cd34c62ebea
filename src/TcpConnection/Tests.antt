-- ===== src/TcpConnection/Tests.antt =====
-- muduo/net/TcpConnection.cpp: the theorems at concrete connections.
use mathlib.Core.Bool.{false≢true}
use learn_muduo.Prelude.{
  ◌>>=◌, ℕ, ◌≡◌, ◌≢◌, ◌*◌, refl, sym, true, false, List, [], ◌∷◌, ◌++◌, some, none, codes, arith,
  length, replicate, take,
}
use learn_muduo.Buffer.{Buffer, IsValid, content}
use learn_muduo.Channel.{Channel, disable_all, remove, is_none_event, is_writing}
use learn_muduo.Channel.Bits.{reads, both}
use learn_muduo.TcpConnection.{
  connect_established, connect_destroyed, shutdown, calls_connection, TcpConnection, StateE,
  connecting, connected, disconnecting, Effect, wrote, refused, would_block, broken_pipe,
  send_in_loop, handle_write, connect_destroyed,
}
use learn_muduo.TcpConnection.Run.{Call, sends, hangs_up, destroys}
use learn_muduo.TcpConnection.Run.{Call, sends, hangs_up, destroys, run, step}
use learn_muduo.TcpConnection.Order.{Forward}
use learn_muduo.TcpConnection.Notices.{run-Forward}
use learn_muduo.TcpConnection.{
  disconnected, queues, do_send, calls_connection, calls_close, send, handle_close,
}
use learn_muduo.TcpConnection.Laws.{IsSound}
use learn_muduo.TcpConnection.Invariant.{fresh, reachable-IsSound}
use learn_muduo.TcpConnection.Sent.{sent}
use learn_muduo.TcpConnection.Stream.{Turn, says, flushes, turns, said, turns-in_order}
use learn_muduo.TcpConnection.HalfClosed.{connect_destroyed-half_closed}
use learn_muduo.TcpConnection.Faults.{send_in_loop-shifted, handle_write-refused}
use learn_muduo.TcpConnection

abbrev room : Buffer
room = record { bytes = replicate 16 0; reader_index = 8; writer_index = 8 }

abbrev pending : Buffer
pending = record { bytes = replicate 8 0 ++ codes "queued"; reader_index = 8; writer_index = 14 }

abbrev watching : ℕ → Channel
watching events = record {
  fd = 5;
  events = events;
  revents = 0;
  index = none;
  log_hup = true;
  tied = true;
  event_handling = false;
  added_to_loop = true;
}

-- Connected, with no output.
abbrev quiet : TcpConnection
quiet = record {
  state = connected;
  reading = true;
  channel = watching 3;
  has_write_complete = true;
  has_high_water = false;
  high_water_mark = 64 * 1024 * 1024;
  input = room;
  output = room;
}

-- Shut down by its user, with output that waits.
abbrev flushing : TcpConnection
flushing = record quiet { state = disconnecting; channel = watching 7; output = pending }

room-IsValid : IsValid room
room-IsValid = record { ordered = omega arith; inside = omega arith; large = omega arith }

pending-IsValid : IsValid pending
pending-IsValid = record { ordered = omega arith; inside = omega arith; large = omega arith }

quiet-IsSound : IsSound quiet
unfolding is_writing
quiet-IsSound = record {
  input_valid = room-IsValid;
  output_valid = room-IsValid;
  interest = reads refl;
  waits = λ e. absurd (false≢true e);
  flushes = λ _ h. absurd (omega (arith, h));
  rests = λ _. refl;
  starts = λ _. refl;
}

flushing-IsSound : IsSound flushing
unfolding is_writing
flushing-IsSound = record {
  input_valid = room-IsValid;
  output_valid = pending-IsValid;
  interest = both refl;
  waits = λ _. omega arith;
  flushes = λ _ _. refl;
  rests = λ e. absurd (false≢true (sym e));
  starts = λ e. absurd (half e);
}
  where
    half : ¬ (disconnecting ≡ connecting)
    half e = cc

up : quiet.state ≢ connecting
up e = cc

reachable-IsSound_example : IsSound (TcpConnection.init 5)
reachable-IsSound_example = reachable-IsSound (fresh 5)

abbrev turns_taken : List Turn
turns_taken = says (codes "hello") 2 ∷ flushes 1 ∷ says (codes "world") 9 ∷ flushes 100 ∷ []

turns-in_order_example :
    (t' : TcpConnection) × (effects : List Effect) × (turns turns_taken quiet ≡ some (t', effects))
    × IsSound t'
    × (sent effects ++ content t'.output ≡ content quiet.output ++ said turns_taken)
turns-in_order_example = turns-in_order turns_taken quiet quiet-IsSound refl

send_in_loop-shifted_example :
    (t' : TcpConnection) × (effects : List Effect) × (send_in_loop quiet b'?'
        (codes "hello")
        (refused would_block)
      ≡ some (t', effects))
    × (content t'.output ≡ take (length (codes "hello")) (b'?' ∷ codes "hello"))
send_in_loop-shifted_example =
    send_in_loop-shifted quiet b'?' (codes "hello") quiet-IsSound refl refl (omega arith)

handle_write-refused_example : handle_write flushing (refused broken_pipe) ≡ none
handle_write-refused_example =
    handle_write-refused flushing broken_pipe (unfold is_writing in refl) (omega arith)

connect_destroyed-half_closed_example :
    (u : TcpConnection) × (down : TcpConnection) × (effects : List Effect) × ((do
      (t', first) ← connect_established (TcpConnection.init 5)
      turns turns_taken t')
      ≡ some (u, effects))
    × (connect_destroyed u ≡ some (down, calls_connection ∷ []))
    × (down.state ≡ disconnected)
    × (connect_destroyed (shutdown u true).0 ≡ none)
connect_destroyed-half_closed_example =
    connect_destroyed-half_closed (TcpConnection.init 5) turns_taken true
      (reachable-IsSound (fresh 5)) (unfold TcpConnection.init in refl)

-- A life: a send from another thread, the close of the peer, and the removal.
abbrev life : List Call
life = sends false 0 (codes "hello") (wrote 5) ∷ hangs_up ∷ destroys ∷ []

abbrev dead : TcpConnection
dead = record quiet {
  state = disconnected;
  channel = record (watching 0) { added_to_loop = false };
}

abbrev life_effects : List Effect
life_effects = queues (do_send (codes "hello")) ∷ calls_connection ∷ calls_close ∷ []

life-dead : run life quiet ≡ some (dead, life_effects)
unfolding run step send handle_close connect_destroyed disable_all remove is_none_event
life-dead = refl

run-Forward_example : Forward quiet dead life_effects
run-Forward_example = run-Forward life quiet dead life_effects life-dead
