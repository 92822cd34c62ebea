-- ===== src/Acceptor.antt =====
-- muduo/net/Acceptor.h and Acceptor.cpp. What the system calls answer is an argument, and a method gives
-- the acceptor and its effects in order.
pub mod Sockets
pub mod Tests
use learn_muduo.Prelude.{
  ℕ, Bool, true, false, List, [], ◌∷◌, ◌++◌, Option, none, some, ◌>>=◌, if◌then◌else◌,
}
use learn_muduo.Channel.{Channel, enable_reading, disable_all, remove}
use learn_muduo.Channel

pub record Acceptor : Type 0 where
  pub accept_socket : ℕ
  pub accept_channel : Channel
  pub listening : Bool
  pub has_callback : Bool
  -- -1 is `none`.
  pub idle_fd : Option ℕ

-- The constructor; the socket and the descriptor of /dev/null are given.
unfoldable pub init : ℕ → ℕ → Acceptor
init accept_socket idle_fd = record {
  accept_socket = accept_socket;
  accept_channel = Channel.init accept_socket;
  listening = false;
  has_callback = false;
  idle_fd = some idle_fd;
}

unfoldable pub set_new_connection_callback : Acceptor → Acceptor
set_new_connection_callback a = record a { has_callback = true }

-- Descriptors that are opened, closed, and handed to the callback; `listen` on the socket.
pub data Effect : Type 0 where
  listens : Effect
  opens closes passes : ℕ → Effect

unfoldable pub listen : Acceptor → Acceptor × List Effect
listen a =
    (record a { listening = true; accept_channel = enable_reading a.accept_channel }, listens ∷ [])

-- What accept(2) answers: a descriptor, or an error, which is EMFILE or another one.
pub data Accepted : Type 0 where
  accepted : ℕ → Accepted
  too_many_files other_error : Accepted

abbrev pub closes_if : Option ℕ → List Effect
closes_if none = []
closes_if (some fd) = closes fd ∷ []

abbrev pub opens_if : Option ℕ → List Effect
opens_if none = []
opens_if (some fd) = opens fd ∷ []

-- `handleRead`; what the second accept and the open answer, -1 being `none`.
unfoldable pub handle_read : Acceptor → Accepted → Option ℕ → Option ℕ → Acceptor × List Effect
handle_read a (accepted connfd) second reopened =
    if a.has_callback
    then (a, opens connfd ∷ passes connfd ∷ [])
    else (a, opens connfd ∷ closes connfd ∷ [])
handle_read a too_many_files second reopened = (
  record a { idle_fd = reopened },
  closes_if a.idle_fd ++ (opens_if second ++ (closes_if second ++ opens_if reopened)),
)
handle_read a other_error second reopened = (a, [])

-- The destructor, before the descriptors of the acceptor are closed.
unfoldable pub destroy : Acceptor → Option (Acceptor × List Effect)
destroy a = do
  channel ← remove (disable_all a.accept_channel)
  some (record a { accept_channel = channel }, closes_if a.idle_fd)
