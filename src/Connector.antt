-- ===== src/Connector.antt =====
-- muduo/net/Connector.h and Connector.cpp. A method gives the connector and its effects, in order, or
-- `none` where an assertion fails or a null pointer is used. The socket that `connect` makes, what
-- connect(2) answers and what the socket reports are arguments.
pub mod Tests
pub mod Backoff
pub mod Sockets
use learn_muduo.Prelude.{
  ℕ, ◌*◌, min, Bool, true, false, List, [], ◌∷◌, ◌++◌, Option, none, some, ◌==◌, if◌then◌else◌,
  ◌>>=◌, ◌>>◌, assert,
}
use learn_muduo.Channel.{Channel, enable_writing, disable_all, remove}
use learn_muduo.Channel

pub data States : Type 0 where
  disconnected connecting connected : States

abbrev pub is_disconnected : States → Bool
is_disconnected disconnected = true
is_disconnected s = false

abbrev pub is_connecting : States → Bool
is_connecting connecting = true
is_connecting s = false

pub record Connector : Type 0 where
  pub connect_asked : Bool
  pub state : States
  pub channel : Option Channel
  pub retry_delay_ms : ℕ

abbrev pub max_retry_delay_ms : ℕ
max_retry_delay_ms = 30 * 1000

abbrev pub init_retry_delay_ms : ℕ
init_retry_delay_ms = 500

-- The constructor.
unfoldable pub init : Connector
init = record {
  connect_asked = false;
  state = disconnected;
  channel = none;
  retry_delay_ms = init_retry_delay_ms;
}

-- Sockets made, closed and handed to the callback; `startInLoop` now or after a delay; and functors
-- handed to the loop.
pub data Effect : Type 0 where
  opens closes passes : ℕ → Effect
  runs_start_in_loop queues_stop_in_loop queues_reset_channel : Effect
  starts_after : ℕ → Effect

abbrev pub Stepped : Type 0
Stepped = Option (Connector × List Effect)

-- The values of `errno` that `connect` tells apart; 0 is `no_error`.
pub data Errno : Type 0 where
  no_error in_progress interrupted is_connected : Errno
  again addr_in_use addr_not_avail conn_refused net_unreach : Errno
  access perm af_no_support already bad_fd fault not_socket other : Errno

unfoldable pub retry : Connector → ℕ → Connector × List Effect
retry c sockfd =
    let c' = record c { state = disconnected } in
    if c.connect_asked
    then (
      record c' { retry_delay_ms = min (c.retry_delay_ms * 2) max_retry_delay_ms },
      closes sockfd ∷ starts_after c.retry_delay_ms ∷ [],
    )
    else (c', closes sockfd ∷ [])

abbrev pub is_null : Option Channel → Bool
is_null none = true
is_null (some ch) = false

-- `connecting`.
unfoldable pub begin_connecting : Connector → ℕ → Stepped
begin_connecting c sockfd = do
  assert (is_null c.channel)
  some (record c { state = connecting; channel = some (enable_writing (Channel.init sockfd)) }, [])

-- The branch of the `switch` in `connect`.
pub data Branch : Type 0 where
  goes_on tries_again gives_up : Branch

unfoldable pub branch_of : Errno → Branch
branch_of no_error = goes_on
branch_of in_progress = goes_on
branch_of interrupted = goes_on
branch_of is_connected = goes_on
branch_of again = tries_again
branch_of addr_in_use = tries_again
branch_of addr_not_avail = tries_again
branch_of conn_refused = tries_again
branch_of net_unreach = tries_again
branch_of e = gives_up

abbrev pub on_branch : Branch → Connector → ℕ → Stepped
on_branch goes_on c sockfd = begin_connecting c sockfd
on_branch tries_again c sockfd = some (retry c sockfd)
on_branch gives_up c sockfd = some (c, closes sockfd ∷ [])

unfoldable pub connect : Connector → ℕ → Errno → Stepped
connect c sockfd saved_errno = do
  (c', effects) ← on_branch (branch_of saved_errno) c sockfd
  some (c', opens sockfd ∷ effects)

unfoldable pub start_in_loop : Connector → ℕ → Errno → Stepped
start_in_loop c sockfd saved_errno = do
  assert (is_disconnected c.state)
  if c.connect_asked then connect c sockfd saved_errno else some (c, [])

unfoldable pub start : Connector → Connector × List Effect
start c = (record c { connect_asked = true }, runs_start_in_loop ∷ [])

unfoldable pub stop : Connector → Connector × List Effect
stop c = (record c { connect_asked = false }, queues_stop_in_loop ∷ [])

unfoldable pub restart : Connector → ℕ → Errno → Stepped
restart c sockfd saved_errno =
    start_in_loop
      (record c {
        state = disconnected;
        retry_delay_ms = init_retry_delay_ms;
        connect_asked = true;
      })
      sockfd saved_errno

-- The socket, and the connector with nothing watched; the channel itself is reset by a functor.
unfoldable pub remove_and_reset_channel : Connector → Option (Connector × ℕ)
remove_and_reset_channel c = do
  channel ← c.channel
  channel' ← remove (disable_all channel)
  some (record c { channel = some channel' }, channel'.fd)

unfoldable pub stop_in_loop : Connector → Stepped
stop_in_loop c =
    if is_connecting c.state
    then (do
      (c', sockfd) ← remove_and_reset_channel (record c { state = disconnected })
      let (c'', effects) = retry c' sockfd
      some (c'', queues_reset_channel ∷ effects))
    else some (c, [])

unfoldable pub reset_channel : Connector → Connector
reset_channel c = record c { channel = none }

-- What the socket reports: an error, or whether it is connected to itself.
pub data Report : Type 0 where
  so_error self_connect succeeds : Report

abbrev pub on_report : Report → Connector → ℕ → Connector × List Effect
on_report so_error c sockfd = retry c sockfd
on_report self_connect c sockfd = retry c sockfd
on_report succeeds c sockfd = (
  record c { state = connected },
  (if c.connect_asked then passes sockfd else closes sockfd) ∷ [],
)

unfoldable pub handle_write : Connector → Report → Stepped
handle_write c report =
    if is_connecting c.state
    then (do
      (c', sockfd) ← remove_and_reset_channel c
      let (c'', effects) = on_report report c' sockfd
      some (c'', queues_reset_channel ∷ effects))
    else (do assert (is_disconnected c.state); some (c, []))

unfoldable pub handle_error : Connector → Stepped
handle_error c =
    if is_connecting c.state
    then (do
      (c', sockfd) ← remove_and_reset_channel c
      let (c'', effects) = retry c' sockfd
      some (c'', queues_reset_channel ∷ effects))
    else some (c, [])
