-- ===== src/TcpConnection.antt =====
-- muduo/net/TcpConnection.h and TcpConnection.cpp. A method returns the connection and its effects,
-- in order, or `none` where an assertion fails. What the system calls answer is an argument. Calls
-- that the callbacks make on the connection are further calls, behind the method that ran them.
pub mod Tests
pub mod Laws
pub mod Run
pub mod Handlers
pub mod Invariant
pub mod Order
pub mod Notices
pub mod Sent
pub mod Stream
pub mod Faults
pub mod HalfClosed
use learn_muduo.Prelude.{
  ℕ, ◌+◌, ◌-◌, ◌*◌, ◌^◌, Bool, true, false, ◌&&◌, ◌||◌, not, List, [], ◌∷◌, ◌++◌, Option, none,
  some, length, take, drop, ltb, leb, ◌==◌, if◌then◌else◌, ◌>>=◌, ◌>>◌, assert,
}
use learn_muduo.Buffer.{
  Buffer, Received, failed, got, content, readable_bytes, append, retrieve, retrieve_all,
  retrieve_all_as_string, retrieve_all, read_fd, initial_size,
}
use learn_muduo.Buffer
use learn_muduo.Channel.{
  Channel, tie, remove, enable_reading, disable_reading, enable_writing, disable_writing,
  disable_all, is_writing, is_reading,
}
use learn_muduo.Channel

pub data StateE : Type 0 where
  disconnected connecting connected disconnecting : StateE

abbrev pub is_connected : StateE → Bool
is_connected connected = true
is_connected s = false

abbrev pub is_disconnected : StateE → Bool
is_disconnected disconnected = true
is_disconnected s = false

abbrev pub is_connecting : StateE → Bool
is_connecting connecting = true
is_connecting s = false

abbrev pub is_disconnecting : StateE → Bool
is_disconnecting disconnecting = true
is_disconnecting s = false

pub record TcpConnection : Type 0 where
  pub state : StateE
  pub reading : Bool
  pub channel : Channel
  pub has_write_complete : Bool
  pub has_high_water : Bool
  pub high_water_mark : ℕ
  pub input : Buffer
  pub output : Buffer

-- The constructor; the callbacks are not set yet.
unfoldable pub init : ℕ → TcpConnection
init sockfd = record {
  state = connecting;
  reading = true;
  channel = Channel.init sockfd;
  has_write_complete = false;
  has_high_water = false;
  high_water_mark = 64 * 1024 * 1024;
  input = Buffer.init initial_size;
  output = Buffer.init initial_size;
}

pub data Functor : Type 0 where
  write_complete do_shutdown do_force_close do_start_read do_stop_read : Functor
  high_water : ℕ → Functor
  do_send : List ℕ → Functor

-- What a method does besides changing the connection: bytes that the socket took, the shutdown of its
-- writing half, callbacks, functors handed to the loop, and a timer that closes the connection.
pub data Effect : Type 0 where
  wrote_bytes : List ℕ → Effect
  shuts_write calls_connection calls_message calls_close : Effect
  queues : Functor → Effect
  closes_later : Effect

pub data Errno : Type 0 where
  would_block broken_pipe connection_reset other_error : Errno

-- What `sockets::write` answers.
pub data Written : Type 0 where
  wrote : ℕ → Written
  refused : Errno → Written

abbrev pub is_fault : Errno → Bool
is_fault broken_pipe = true
is_fault connection_reset = true
is_fault e = false

abbrev pub Stepped : Type 0
Stepped = Option (TcpConnection × List Effect)

abbrev pub effect_if : Bool → Effect → List Effect
effect_if b e = if b then e ∷ [] else []

-- The local variables of `sendInLoop` behind the direct write: `nwrote` (-1 for `none`), `remaining`
-- and `faultError`.
pub record Attempt : Type 0 where
  pub nwrote : Option ℕ
  pub remaining : ℕ
  pub fault : Bool
  pub effects : List Effect

unfoldable pub written : TcpConnection → List ℕ → Written → Attempt
written t message (wrote n) = record {
  nwrote = some n;
  remaining = length message - n;
  fault = false;
  effects =
      wrote_bytes (take n message)
      ∷ effect_if (n == length message && t.has_write_complete) (queues write_complete);
}
written t message (refused e) = record {
  nwrote = none;
  remaining = length message;
  fault = is_fault e;
  effects = [];
}

unfoldable pub attempt : TcpConnection → List ℕ → Written → Attempt
attempt t message w =
    if not (is_writing t.channel) && readable_bytes t.output == 0
    then written t message w
    else record { nwrote = some 0; remaining = length message; fault = false; effects = [] }

-- The bytes from `data + nwrote` on; the byte in memory before the message is given.
abbrev pub from_offset : Option ℕ → ℕ → List ℕ → List ℕ
from_offset none before message = before ∷ message
from_offset (some n) before message = drop n message

-- `assert(remaining <= len)`: a count above the length makes the difference wrap.
abbrev pub within : Option ℕ → ℕ → Bool
within none len = true
within (some n) len = leb n len

-- The high-water callback is queued by the message that brings the output to the mark or past it.
abbrev pub high_water_effects : TcpConnection → ℕ → List Effect
high_water_effects t remaining =
    let old_len = readable_bytes t.output in
    effect_if
      (leb t.high_water_mark (old_len + remaining)
        && (ltb old_len t.high_water_mark && t.has_high_water))
      (queues (high_water (old_len + remaining)))

unfoldable pub send_in_loop : TcpConnection → ℕ → List ℕ → Written → Stepped
send_in_loop t before message w = if is_disconnected t.state then some (t, []) else (do
  let a = attempt t message w
  assert (within a.nwrote (length message))
  if not a.fault && ltb 0 a.remaining
      then (do
        output ← append t.output (take a.remaining (from_offset a.nwrote before message))
        let channel = if is_writing t.channel then t.channel else enable_writing t.channel
        some (
          record t { output = output; channel = channel },
          a.effects ++ high_water_effects t a.remaining,
        ))
      else some (t, a.effects))

-- `send`, from the loop's thread or from another one.
unfoldable pub send : TcpConnection → Bool → ℕ → List ℕ → Written → Stepped
send t in_loop before message w =
    if is_connected t.state
    then if in_loop
      then send_in_loop t before message w
      else some (t, queues (do_send message) ∷ [])
    else some (t, [])

-- `send` of a buffer, which is empty then; the buffer comes last.
unfoldable pub send_buffer :
    TcpConnection → Bool → ℕ → Buffer → Written → Option ((TcpConnection × List Effect) × Buffer)
send_buffer t in_loop before buf w =
    if is_connected t.state
    then if in_loop
      then (do result ← send_in_loop t before (content buf) w; some (result, retrieve_all buf))
      else (do
        (message, buf') ← retrieve_all_as_string buf
        some ((t, queues (do_send message) ∷ []), buf'))
    else some ((t, []), buf)

unfoldable pub shutdown_in_loop : TcpConnection → TcpConnection × List Effect
shutdown_in_loop t = (t, effect_if (not (is_writing t.channel)) shuts_write)

unfoldable pub shutdown : TcpConnection → Bool → TcpConnection × List Effect
shutdown t in_loop =
    if is_connected t.state
    then if in_loop
      then shutdown_in_loop (record t { state = disconnecting })
      else (record t { state = disconnecting }, queues do_shutdown ∷ [])
    else (t, [])

abbrev pub is_open : StateE → Bool
is_open s = is_connected s || is_disconnecting s

unfoldable pub force_close : TcpConnection → TcpConnection × List Effect
force_close t =
    if is_open t.state
    then (record t { state = disconnecting }, queues do_force_close ∷ [])
    else (t, [])

unfoldable pub force_close_with_delay : TcpConnection → TcpConnection × List Effect
force_close_with_delay t =
    if is_open t.state then (record t { state = disconnecting }, closes_later ∷ []) else (t, [])

unfoldable pub handle_close : TcpConnection → Stepped
handle_close t = do
  assert (is_open t.state)
  some (
    record t { state = disconnected; channel = disable_all t.channel },
    calls_connection ∷ calls_close ∷ [],
  )

unfoldable pub force_close_in_loop : TcpConnection → Stepped
force_close_in_loop t = if is_open t.state then handle_close t else some (t, [])

unfoldable pub start_read_in_loop : TcpConnection → TcpConnection × List Effect
start_read_in_loop t =
    if not t.reading || not (is_reading t.channel)
    then (record t { channel = enable_reading t.channel; reading = true }, [])
    else (t, [])

unfoldable pub stop_read_in_loop : TcpConnection → TcpConnection × List Effect
stop_read_in_loop t =
    if t.reading || is_reading t.channel
    then (record t { channel = disable_reading t.channel; reading = false }, [])
    else (t, [])

unfoldable pub connect_established : TcpConnection → Stepped
connect_established t = do
  assert (is_connecting t.state)
  some (
    record t { state = connected; channel = enable_reading (tie t.channel) },
    calls_connection ∷ [],
  )

unfoldable pub connect_destroyed : TcpConnection → Stepped
connect_destroyed t = do
  let t' =
      if is_connected t.state
      then record t { state = disconnected; channel = disable_all t.channel }
      else t
  channel ← remove t'.channel
  some (record t' { channel = channel }, effect_if (is_connected t.state) calls_connection)

-- `handleRead`; what the message callback leaves of the input is given by a function.
unfoldable pub handle_read : (Buffer → Buffer) → TcpConnection → (List ℕ → Received) → Stepped
handle_read message_callback t readv = do
  (input, received) ← read_fd readv t.input
  let t' = record t { input = input }
  elim received [
    | failed errno ↦ some (t', [])
    | got bytes ↦
        if ltb 0 (length bytes)
        then some (record t' { input = message_callback input }, calls_message ∷ [])
        else handle_close t'
  ]

-- `size_t n = sockets::write(…)`: an error is the largest number of 64 bits.
abbrev pub as_size : Written → ℕ
as_size (wrote n) = n
as_size (refused e) = 2 ^ 64 - 1

abbrev pub taken : Written → Buffer → List ℕ
taken (wrote n) b = take n (content b)
taken (refused e) b = []

-- Behind a write that emptied the output.
unfoldable pub drained : TcpConnection → TcpConnection × List Effect
unfolding shutdown_in_loop
drained t =
    let t' = record t { channel = disable_writing t.channel } in
    let complete = effect_if t.has_write_complete (queues write_complete) in
    if is_disconnecting t.state then (t', complete ++ (shutdown_in_loop t').1) else (t', complete)

unfoldable pub handle_write : TcpConnection → Written → Stepped
handle_write t w =
    if is_writing t.channel
    then if ltb 0 (as_size w)
      then (do
        output ← retrieve t.output (as_size w)
        let t' = record t { output = output }
        let sent = wrote_bytes (taken w t.output)
        if readable_bytes output == 0
            then some ((drained t').0, sent ∷ (drained t').1)
            else some (t', sent ∷ []))
      else some (t, [])
    else some (t, [])
