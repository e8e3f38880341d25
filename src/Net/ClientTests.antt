-- ===== src/Net/ClientTests.antt =====
-- The theorems on src/net/client and src/net/server at concrete inputs.
use sheep_cpp.Base.{
  ◌≡◌, refl, true, none, some, List, [], ◌∷◌, empty, says, In, length, set_at, arith,
}
use sheep_cpp.Net.Asyncer.{Called}
use sheep_cpp.Net.Client.{Client, make_client, Acted, async_connect}
use sheep_cpp.Net.Client.Attempt.{attempt, reaches, Ends, attempt-Ends}
use sheep_cpp.Net.ClientPool.{
  ClientPool, make_pool, init, get, on_connected, connected, Reached, inited_pool, next, up,
}
use sheep_cpp.Net.ClientPool.Lent.{pool_size, get_up}
use sheep_cpp.Net.Server.{Server, make_server}
use sheep_cpp.Net.Server.Visits.{World, Event, readable, readable_ends, finished, run}
use sheep_cpp.Net.Server.Tally.{no_connections}
use sheep_cpp.Net.Socket.{done, error, connect, accept, eagain, einprogress, Kernel}

-- Everything goes well, and a connection takes its time.
abbrev willing : Kernel
willing c = elim c [ connect addr port ↦ error einprogress | _ ↦ done 0 ]

abbrev ready_client : Client
ready_client = record (make_client "10.0.0.1" 80) {
  connected_handler = some 1;
  disconnected_handler = some 2;
}

attempt-Ends_example :
    (r : Acted) × (attempt willing empty (async_connect true 3 ready_client).0 ≡ some r)
    × Ends (reaches willing ready_client.addr ready_client.port) 2 1 r
unfolding make_client
attempt-Ends_example = attempt-Ends willing true 3 ready_client 2 1 refl refl

-- Two clients, of which 1 is connected.
abbrev two_clients : ClientPool
two_clients = (init (make_pool 2)).0

abbrev one_idle : ClientPool
one_idle = record two_clients { clients = 1 ∷ []; link = set_at 1 up two_clients.link }

one_idle-Reached : Reached 2 one_idle
unfolding on_connected init make_pool
one_idle-Reached = next inited_pool (connected 1 (omega arith) refl refl)

pool_size_example : length one_idle.all_clients ≡ 2
pool_size_example = pool_size 2 one_idle one_idle-Reached

get_up_example :
    (one_idle.link 1 ≡ up)
    × In 1 one_idle.all_clients
    × (¬ In 1 (record one_idle { clients = [] }).clients)
unfolding get init make_pool
get_up_example = get_up 2 0 1 one_idle (record one_idle { clients = [] }) one_idle-Reached refl

-- The queue of the listening socket is empty.
abbrev empty_queue : Kernel
empty_queue c = elim c [ accept ↦ error eagain | _ ↦ done 0 ]

abbrev serving : Server
serving = record (make_server "0.0.0.0" 80) {
  connected_handler = some 1;
  disconnected_handler = some 2;
}

-- Three connections come; the second one ends in its connected handler, and the first one later.
abbrev visits : List Event
visits =
    readable willing
    ∷ readable_ends willing (says "gone")
    ∷ readable willing
    ∷ finished 0 (says "gone")
    ∷ []

abbrev after_visits : World × List Called
after_visits = elim (run 9 visits (no_connections serving)) [
  | none ↦ (no_connections serving, [])
  | some r ↦ r
]
