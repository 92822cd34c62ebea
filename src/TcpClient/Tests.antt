-- ===== src/TcpClient/Tests.antt =====
-- muduo/net/TcpClient.cpp: the theorems at a client whose connection hangs up.
use learn_muduo.Prelude.{◌<◌, ◌≡◌, refl, true, false, List, [], ◌∷◌, none, some, arith, codes}
use learn_muduo.EPollPoller.{put}
use learn_muduo.Connector.{
  Connector, Errno, in_progress, connecting, start, start_in_loop, begin_connecting, branch_of,
  handle_write, remove_and_reset_channel,
}
use learn_muduo.Connector
use learn_muduo.Connector.Sockets.{starts_in_loop, becomes_writable}
use learn_muduo.Connector.Sockets
use learn_muduo.Channel.{enable_reading, enable_writing, disable_all, tie, remove, is_none_event}
use learn_muduo.Channel
use learn_muduo.TcpConnection.{
  TcpConnection, connected, disconnected, connect_established, handle_close, calls_connection,
  calls_close,
}
use learn_muduo.TcpConnection
use learn_muduo.TcpConnection.Run.{hangs_up, step}
use learn_muduo.TcpClient
use learn_muduo.TcpClient.{
  TcpClient, Held, Effect, init, new_connection, remove_connection, with_connection, conn_name,
}
use learn_muduo.TcpClient.System.{System, Reachable, fresh, later, connects, attempts, succeeds}
use learn_muduo.TcpClient.Keeping.{IsSingle}
use learn_muduo.TcpClient.Single.{reachable-IsSingle, remove_connection-current}

abbrev no_connection : Held
unfolding TcpConnection.init
no_connection = record { name = []; connection = TcpConnection.init 0 }

abbrev client : TcpClient
unfolding init Connector.init
client = init (λ p. no_connection) (codes "web")

abbrev connecting_client : TcpClient
unfolding client enable_writing Channel.init
connecting_client = record client {
  connector = record client.connector {
    connect_asked = true;
    state = connecting;
    channel = some (enable_writing (Channel.init 9));
  };
}

connecting-Reachable :
    Reachable (record { client = connecting_client; allocated = 0; waiting = [] })
unfolding connecting_client TcpClient.connect start Connector.Sockets.step start_in_loop
    Connector.connect begin_connecting branch_of
connecting-Reachable =
    later (later (fresh (λ p. no_connection) (codes "web")) connects)
      (attempts (starts_in_loop 9 in_progress) refl refl refl)

abbrev up_connection : TcpConnection
unfolding enable_reading tie TcpConnection.init
up_connection = record (TcpConnection.init 9) {
  state = connected;
  channel = enable_reading (tie (TcpConnection.init 9).channel);
}

abbrev up_client : TcpClient
unfolding connecting_client up_connection conn_name remove disable_all
up_client = record connecting_client {
  heap =
      put
        (put connecting_client.heap 0 (record {
          name = conn_name (codes "web") (codes "10.0.0.1:80") 1;
          connection = TcpConnection.init 9;
        }))
        0
        (record {
          name = conn_name (codes "web") (codes "10.0.0.1:80") 1;
          connection = up_connection;
        });
  next_conn_id = 2;
  connection = some 0;
  connector = record connecting_client.connector {
    state = Connector.connected;
    channel = some (record (Channel.init 9) { added_to_loop = false });
  };
}

abbrev up : System
up = record { client = up_client; allocated = 1; waiting = [] }

up-Reachable : Reachable up
unfolding up_client Connector.Sockets.step handle_write remove_and_reset_channel new_connection
    connect_established
up-Reachable =
    let one : 0 < 1 = omega arith in
    later connecting-Reachable
      (succeeds (becomes_writable Connector.succeeds) (codes "10.0.0.1:80") 9 refl refl one refl)

reachable-IsSingle_example : IsSingle up
reachable-IsSingle_example = reachable-IsSingle up-Reachable

remove_connection-current_example :
    (client : TcpClient) × (made : List Effect) × (remove_connection
        (with_connection up.client 0 (record up_connection {
          state = disconnected;
          channel = disable_all up_connection.channel;
        }))
        0
        9
        in_progress
      ≡ some (client, made))
    × (start_in_loop client.connector 9 in_progress ≡ none)
unfolding step handle_close up_client
remove_connection-current_example =
    let more : 0 < 1 = omega arith in
    remove_connection-current {s = up} 0 hangs_up
      (record up_connection { state = disconnected; channel = disable_all up_connection.channel })
      (calls_connection ∷ calls_close ∷ []) 9 in_progress up-Reachable more refl refl more refl
