-- ===== src/TcpConnection/Run.antt =====
-- muduo/net/TcpConnection.cpp: a connection as its loop and its users drive it.
use learn_muduo.Prelude.{ℕ, Bool, List, [], ◌∷◌, ◌++◌, some, ◌>>=◌}
use learn_muduo.Buffer.{Buffer, Received}
use learn_muduo.TcpConnection.{
  TcpConnection, Written, Stepped, send, send_in_loop, shutdown, shutdown_in_loop, force_close,
  force_close_with_delay, force_close_in_loop, start_read_in_loop, stop_read_in_loop,
  connect_established, connect_destroyed, handle_read, handle_write, handle_close,
}

-- The calls of users, the events of the channel, and the functors that the loop runs.
pub data Call : Type 0 where
  establishes destroys hangs_up force_closes force_closes_later starts_read stops_read : Call
  runs_shutdown runs_force_close : Call
  sends : Bool → ℕ → List ℕ → Written → Call
  runs_send : ℕ → List ℕ → Written → Call
  shuts : Bool → Call
  reads : (Buffer → Buffer) → (List ℕ → Received) → Call
  becomes_writable : Written → Call

unfoldable pub step : Call → TcpConnection → Stepped
step establishes t = connect_established t
step destroys t = connect_destroyed t
step hangs_up t = handle_close t
step force_closes t = some (force_close t)
step force_closes_later t = some (force_close_with_delay t)
step starts_read t = some (start_read_in_loop t)
step stops_read t = some (stop_read_in_loop t)
step runs_shutdown t = some (shutdown_in_loop t)
step runs_force_close t = force_close_in_loop t
step (sends in_loop before message w) t = send t in_loop before message w
step (runs_send before message w) t = send_in_loop t before message w
step (shuts in_loop) t = some (shutdown t in_loop)
step (reads message_callback readv) t = handle_read message_callback t readv
step (becomes_writable w) t = handle_write t w

-- The effects of all the calls, in order.
unfoldable pub run : List Call → TcpConnection → Stepped
run [] t = some (t, [])
run (c ∷ cs) t = do (t', first) ← step c t; (t'', rest) ← run cs t'; some (t'', first ++ rest)
