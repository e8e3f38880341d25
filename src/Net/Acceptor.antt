-- ===== src/Net/Acceptor.antt =====
-- src/net/server/acceptor.cpp: the socket that listens. The kernel is an argument.
use sheep_cpp.Base.{
  ℕ, Bool, true, false, not, Option, none, some, [], ◌++◌, String, if◌then◌else◌, says, is_empty,
}
use sheep_cpp.Net.Socket.{
  Kernel, Calls, ◌and_then◌, Fd, bind_to, set_reuse_addr, set_noblock, set_no_delay, start_listen,
  accept_one,
}

pub record Acceptor : Type 0 where
  pub addr : String
  pub port : ℕ
  -- newConnectionHandler_ is set
  pub new_connection_handler : Bool
  -- event_, with its read notification
  pub event : Option Bool

unfoldable pub make_acceptor : String → ℕ → Acceptor
make_acceptor addr port = record {
  addr = addr;
  port = port;
  new_connection_handler = false;
  event = none;
}

-- The calls before the event is made.
unfoldable pub prepare : Kernel → Acceptor → Calls
unfolding ◌and_then◌ bind_to set_reuse_addr set_noblock set_no_delay
prepare k a =
    bind_to k a.addr a.port and_then set_reuse_addr k and_then set_noblock k and_then set_no_delay k

unfoldable pub listen : Kernel → Acceptor → Acceptor × Calls
unfolding prepare start_listen
listen k a =
    if not a.new_connection_handler
    then (a, ([], says "invalid new connection handler"))
    else (let before = prepare k a in
        if not (is_empty before.1)
        then (a, before)
        else (let listening = start_listen k in
            (record a { event = some true }, (before.0 ++ listening.0, listening.1))))

-- readHandler: the descriptor that it gives to the handler, if it does.
unfoldable pub read_handler : Kernel → Option Fd
unfolding accept_one
read_handler k = let (f, e) = accept_one k in if not (is_empty e) then none else some f
