-- ===== src/Net/Client.antt =====
-- src/net/client/client.cpp: a connection that is made in the loop, and its handlers. The call of a handler
-- is the last act of an operation, and an output.
pub mod Attempt
use sheep_cpp.Base.{
  ℕ, Bool, true, false, not, Option, none, some, List, [], ◌∷◌, ◌++◌, String, if◌then◌else◌, ErrMsg,
  empty, says, is_empty,
}
use sheep_cpp.Net.Asyncer.{Asyncer, Called, called, called_if_set, make_asyncer, async_do, destroy}
use sheep_cpp.Net.Buffer.{make_buffer}
use sheep_cpp.Net.Connector
use sheep_cpp.Net.Connector.{Connector, Written, connect_failed, new_connection}
use sheep_cpp.Net.Socket.{Kernel}
use sheep_cpp.Net.TcpConnection
use sheep_cpp.Net.TcpConnection.{TcpConnection, Notify, Outcome, Env}

pub record Client : Type 0 where
  pub addr : String
  pub port : ℕ
  pub connect_called : Bool
  pub connector : Option Connector
  pub asyncer : Option Asyncer
  pub connected_handler : Option ℕ
  pub disconnected_handler : Option ℕ
  pub connection : Option TcpConnection

unfoldable pub make_client : String → ℕ → Client
make_client addr port = record {
  addr = addr;
  port = port;
  connect_called = false;
  connector = none;
  asyncer = none;
  connected_handler = none;
  disconnected_handler = none;
  connection = none;
}

-- The client after an operation, and the handlers that it called.
abbrev pub Acted : Type 0
Acted = Client × List Called

-- SetConnectedHandler, SetDisconnectedHandler; `none` is the fatal line.
unfoldable pub set_connected_handler : ℕ → Client → Option Client
set_connected_handler h c =
    if c.connect_called then none else some (record c { connected_handler = some h })

unfoldable pub set_disconnected_handler : ℕ → Client → Option Client
set_disconnected_handler h c =
    if c.connect_called then none else some (record c { disconnected_handler = some h })

-- An asyncer that is replaced passes its error on to the handler.
abbrev pub dropped : Option Asyncer → List Called
dropped none = []
dropped (some a) = destroy a

-- The client, the message, the calls. The new socket has the descriptor `fd`.
unfoldable pub async_connect : Bool → ℕ → Client → Client × ErrMsg × List Called
unfolding make_asyncer async_do Connector.make_connector destroy
async_connect junk fd c = elim c.disconnected_handler [
  | none ↦ (c, says "invalid connected or disconnected handler", [])
  | some d ↦ elim c.connected_handler [
    | none ↦ (c, says "invalid connected or disconnected handler", [])
    | some h ↦
        let (a, calls) = async_do d (make_asyncer junk) in
        (
          record c {
            connection = none;
            connect_called = true;
            connector = some (Connector.make_connector c.addr c.port fd);
            asyncer = some a;
          },
          empty,
          dropped c.asyncer ++ calls,
        )
  ]
]

-- What AsyncConnect has the loop do. `none` is a fault.
unfoldable pub on_posted : Kernel → ErrMsg → Client → Option Acted
unfolding Connector.connect
on_posted k e c =
    if not (is_empty e)
    then some (c, called_if_set c.disconnected_handler e)
    else elim c.connector [
      | none ↦ none
      | some x ↦
          let x' = record x {
            new_connection_handler = true;
            connect_failed_handler = c.disconnected_handler;
          } in
          elim (Connector.connect k x') [
            | none ↦ none
            | some (y, (calls, f)) ↦ some (
              record c { connector = some y },
              (if not (is_empty f) then called_if_set c.disconnected_handler f else []),
            )
          ]
    ]

-- TcpConnection(socket, event)
unfoldable pub make_connection : Notify → TcpConnection
unfolding make_buffer
make_connection n = record {
  read_buffer = make_buffer;
  write_buffer = make_buffer;
  expect_size = 0;
  readed_size = 0;
  any_flag = false;
  finished = false;
  user_read_handler = none;
  write_done = false;
  user_write_handler = none;
  finish_handler = none;
  event = some n;
  asyncer = none;
}

-- newConnectionHandler
unfoldable pub on_new_connection : Notify → Client → Option Acted
unfolding make_connection TcpConnection.init_connected
on_new_connection n c =
    let x = record (make_connection n) { finish_handler = c.disconnected_handler } in
    elim (TcpConnection.init_connected x) [
      | none ↦ none
      | some (y, e) ↦ some (
        record c { connection = some y },
        (if not (is_empty e)
            then called_if_set c.disconnected_handler e
            else called_if_set c.connected_handler e),
      )
    ]

-- The handlers of the connector.
unfoldable pub on_written : Client → Connector × Written → Option Acted
unfolding on_new_connection
on_written c (y, connect_failed calls) = some (record c { connector = some y }, calls)
on_written c (y, new_connection s n) = on_new_connection n (record c { connector = some y })

-- The write event of the connector.
unfoldable pub on_writable : Kernel → Client → Option Acted
unfolding Connector.write_handler on_written
on_writable k c = elim c.connector [
  | none ↦ none
  | some x ↦ elim (Connector.write_handler k x) [ none ↦ none | some w ↦ on_written c w ]
]

-- Reset(errMsg)
unfoldable pub reset : Env → ErrMsg → Client → Option Acted
unfolding TcpConnection.reset TcpConnection.finish
reset env e c = elim c.connection [
  | none ↦ none
  | some x ↦
      if not (is_empty e)
      then elim (TcpConnection.finish env e x) [
        | none ↦ none
        | some (y, calls) ↦ some (record c { connection = some y }, calls)
      ]
      else some (record c { connection = some (TcpConnection.reset x) }, [])
]
