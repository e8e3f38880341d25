-- ===== src/Net/Server.antt =====
-- src/net/server/server.cpp: the connections that are accepted. A connection is a number; the calls of the
-- handlers are outputs.
pub mod Accepting
pub mod Visits
pub mod Balance
pub mod Tally
use sheep_cpp.Base.{
  ℕ, ◌+◌, Bool, true, false, not, Option, none, some, List, [], ◌∷◌, ◌++◌, String, if◌then◌else◌,
  ErrMsg, empty, says, is_empty, without,
}
use sheep_cpp.Net.Acceptor.{Acceptor, make_acceptor, listen, read_handler}
use sheep_cpp.Net.Asyncer.{Asyncer, Called, called, called_if_set, make_asyncer, async_do}
use sheep_cpp.Net.Client.{make_connection}
use sheep_cpp.Net.Socket.{Kernel, Fd, fd, bad_fd, set_noblock, set_no_delay}
use sheep_cpp.Net.TcpConnection
use sheep_cpp.Net.TcpConnection.{TcpConnection}

pub record Server : Type 0 where
  pub serve_called : Bool
  pub acceptor : Acceptor
  pub asyncer : Option Asyncer
  pub connected_handler : Option ℕ
  pub disconnected_handler : Option ℕ
  pub connections : List ℕ
  -- the number of the next connection
  pub next_id : ℕ

unfoldable pub make_server : String → ℕ → Server
unfolding make_acceptor
make_server addr port = record {
  serve_called = false;
  acceptor = make_acceptor addr port;
  asyncer = none;
  connected_handler = none;
  disconnected_handler = none;
  connections = [];
  next_id = 0;
}

-- SetConnectedHandler, SetDisconnectedHandler; `none` is the fatal line.
unfoldable pub set_connected_handler : ℕ → Server → Option Server
set_connected_handler h s =
    if s.serve_called then none else some (record s { connected_handler = some h })

unfoldable pub set_disconnected_handler : ℕ → Server → Option Server
set_disconnected_handler h s =
    if s.serve_called then none else some (record s { disconnected_handler = some h })

abbrev has : Option ℕ → Bool
has none = false
has (some h) = true

-- The lambda of the asyncer follows as on_posted.
unfoldable pub serve : Bool → Server → Server × ErrMsg
unfolding make_asyncer async_do
serve junk s =
    if s.serve_called
    then (s, says "Serve can't called twice")
    else if not (has s.connected_handler)
    then (s, says "invalid connected or disconnected handler")
    else elim s.disconnected_handler [
      | none ↦ (s, says "invalid connected or disconnected handler")
      | some d ↦ (
        record s { serve_called = true; asyncer = some (async_do d (make_asyncer junk)).0 },
        empty,
      )
    ]

-- The server after an operation, and the handlers that it called.
abbrev pub Acted : Type 0
Acted = Server × List Called

unfoldable pub on_posted : Kernel → ErrMsg → Server → Acted
unfolding listen
on_posted k e s =
    if not (is_empty e)
    then (s, called_if_set s.disconnected_handler e)
    else (let (a, (calls, f)) = listen k (record s.acceptor { new_connection_handler = true }) in
        (
          record s { acceptor = a },
          (if not (is_empty f) then called_if_set s.disconnected_handler f else []),
        ))

-- The end of newConnectionHandler: the handler hears of the connection before it goes into the set.
unfoldable pub welcome : ErrMsg → Server → Acted
welcome e s =
    let s' = record s { next_id = s.next_id + 1 } in
    if not (is_empty e) then (s', called_if_set s.connected_handler e) else (
      record s' { connections = s.next_id ∷ s.connections },
      called_if_set s.connected_handler e,
    )

abbrev pub accepted_connection : ℕ → TcpConnection
accepted_connection finish =
    record (make_connection (record { read_notify = false; write_notify = false })) {
      finish_handler = some finish;
    }

-- newConnectionHandler; a bad descriptor is fatal, and `finish` is the finish handler.
unfoldable pub on_new_connection : Kernel → ℕ → Fd → Server → Option Acted
unfolding TcpConnection.init_accepted set_noblock set_no_delay make_connection welcome
on_new_connection k finish bad_fd s = none
on_new_connection k finish (fd n) s =
    elim (TcpConnection.init_accepted (set_noblock k).1 (set_no_delay k).1
      (accepted_connection finish)) [ none ↦ none | some (y, e) ↦ some (welcome e s) ]

-- The read event of the acceptor.
unfoldable pub on_readable : Kernel → ℕ → Server → Option Acted
unfolding read_handler on_new_connection
on_readable k finish s = elim (read_handler k) [
  | none ↦ some (s, [])
  | some f ↦ on_new_connection k finish f s
]

-- The finish handler of a connection.
unfoldable pub on_finish : ℕ → ErrMsg → Server → Acted
on_finish id e s =
    (record s { connections = without id s.connections }, called_if_set s.disconnected_handler e)
