-- ===== src/Net/Connector.antt =====
-- src/net/client/connector.cpp: the steps of a connection to a server. The kernel is an argument; a handler
-- is a number, and the call of one is the last act of an operation.
pub mod Opening
use sheep_cpp.Base.{
  ℕ, Bool, true, false, not, Option, none, some, List, [], ◌∷◌, String, if◌then◌else◌, ErrMsg, says,
  is_empty,
}
use sheep_cpp.Net.Asyncer.{Called, called_if_set}
use sheep_cpp.Net.Socket.{
  Socket, Kernel, Calls, ◌and_then◌, set_noblock, set_no_delay, connect_to, check_connect,
}
use sheep_cpp.Net.TcpConnection.{Notify}

pub record Connector : Type 0 where
  pub addr : String
  pub port : ℕ
  -- both are given away to the connection
  pub event : Option Notify
  pub socket : Option Socket
  -- the lambda of Client is set
  pub new_connection_handler : Bool
  pub connect_failed_handler : Option ℕ

unfoldable pub make_connector : String → ℕ → ℕ → Connector
make_connector addr port fd = record {
  addr = addr;
  port = port;
  event = none;
  socket = some (record { fd = fd; addr = ""; port = 0 });
  new_connection_handler = false;
  connect_failed_handler = none;
}

abbrev pub Connecting : Type 0
Connecting = Connector × Calls

abbrev has : Option ℕ → Bool
has none = false
has (some h) = true

-- The end of Connect: the write event is set up where no message is left.
unfoldable pub opened : Calls → Calls → Socket → Connector → Connecting
unfolding ◌and_then◌
opened before connecting s c =
    let calls = before and_then connecting in
    if not (is_empty before.1)
    then (c, before)
    else if not (is_empty calls.1)
    then (record c { socket = some s }, calls)
    else (
      record c {
        socket = some s;
        event = some (record { read_notify = false; write_notify = true });
      },
      calls,
    )

-- Connect, once the handlers are set.
unfoldable pub connect_socket : Kernel → Socket → Connector → Connecting
unfolding ◌and_then◌ set_noblock set_no_delay connect_to opened
connect_socket k s c =
    let (s', connecting) = connect_to k c.addr c.port s in
    opened (set_noblock k and_then set_no_delay k) connecting s' c

-- `none`: the socket is gone.
unfoldable pub connect : Kernel → Connector → Option Connecting
unfolding connect_socket
connect k c =
    if not c.new_connection_handler
    then some (c, ([], says "invalid new connection or connect failed handler"))
    else if not (has c.connect_failed_handler)
    then some (c, ([], says "invalid new connection or connect failed handler"))
    else elim c.socket [ none ↦ none | some s ↦ some (connect_socket k s c) ]

-- What writeHandler ends with.
pub data Written : Type 0 where
  connect_failed : List Called → Written
  -- the socket and the event that it gives away
  new_connection : Socket → Notify → Written

-- writeHandler, on what CheckConnect says.
unfoldable pub written : ErrMsg → Socket → Notify → Connector → Connector × Written
written e s n c =
    if not (is_empty e)
    then (record c { event = some n }, connect_failed (called_if_set c.connect_failed_handler e))
    else (record c { event = none; socket = none }, new_connection s n)

-- The write event: it puts its notification off and calls writeHandler.
unfoldable pub write_handler : Kernel → Connector → Option (Connector × Written)
unfolding check_connect written
write_handler k c = elim c.event [
  | none ↦ none
  | some n ↦ elim c.socket [
    | none ↦ none
    | some s ↦ some (written (check_connect k s).1 s (record n { write_notify = false }) c)
  ]
]
