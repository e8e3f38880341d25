-- ===== src/SmallClient/Tests.antt =====
-- The theorems on src/small_client at concrete inputs.
use sheep_cpp.Base.{
  ltb, ℕ, ◌+◌, ◌-◌, ◌≡◌, ◌⊎◌, refl, Option, none, some, List, [], ◌∷◌, ◌++◌, true, false, empty,
  says, if◌then◌else◌, ◌==◌, In, length, arith,
}
use sheep_cpp.Net.Buffer.{Buffer}
use sheep_cpp.HttpParser.RespParser.{RespParser, make_parser, message_end, Executed}
use sheep_cpp.SmallClient.ClientChannel.{
  ClientChannel, make_channel, on_nodes, no_pool, chosen, get_client_pool, get_client_pool-on_nodes,
}
use sheep_cpp.SmallClient.AddrPort.{
  addr_port, ok_with, addr_port_to_addr_and_port, addr_port_round_trip,
}
use sheep_cpp.SmallClient.RedisClient.{RedisReader, RedisClient, reply, reply_string}
use sheep_cpp.SmallClient.HttpClient
use sheep_cpp.SmallClient.HttpClient.{HttpClient, make_http_client}
use sheep_cpp.SmallClient.ClientManager.{MakeClientHandler, ClientPools, find}
use sheep_cpp.SmallClient.ClientManager.Update.{made, or}
use sheep_cpp.SmallClient.BaseClient.{Event, timed, written, read, request}
use sheep_cpp.SmallClient.BaseClient.Once.{Goes, request_once}

-- No pool can be made for the address 3.
abbrev handler : MakeClientHandler
handler k = (if k == 3 then says "invalid address" else empty, k)

abbrev pools : ClientPools
pools = (1, 10) ∷ (2, 20) ∷ []

abbrev channel : ClientChannel
unfolding make_channel
channel = record (make_channel 0) { pools = pools }

-- The request is sent, the response comes in two parts, and the timer is late.
abbrev answered : List Event
answered = written empty ∷ read empty empty false ∷ read empty empty true ∷ timed empty ∷ []

request_once_example : Goes 5 false (request 100 true (some 5) empty answered)
request_once_example = request_once 5 100 empty answered

abbrev two_nodes : List ℕ
two_nodes = 2 ∷ 4 ∷ []

get_client_pool-on_nodes_example :
    ((two_nodes ≡ []) × (get_client_pool 7 (on_nodes handler two_nodes channel) ≡ no_pool))
    ⊎ ((k : ℕ) × In k two_nodes
        × (get_client_pool 7 (on_nodes handler two_nodes channel)
            ≡ chosen (or (find k channel.pools) (made handler k))))
get_client_pool-on_nodes_example = get_client_pool-on_nodes handler two_nodes channel 7

-- Ports of one digit.
abbrev to_digit : ℕ → List ℕ
to_digit n = (48 + n) ∷ []

abbrev of_digit : List ℕ → Option ℕ
of_digit [] = none
of_digit (d ∷ ds) = some (d - 48)

addr_port_round_trip_example :
    addr_port_to_addr_and_port of_digit (addr_port to_digit (49 ∷ 46 ∷ []) 8)
    ≡ ok_with (49 ∷ 46 ∷ []) 8
addr_port_round_trip_example =
    addr_port_round_trip to_digit of_digit (49 ∷ 46 ∷ []) 8 (λ h. ground (arith, h))
      (λ h. ground (arith, h)) (λ h. ground (arith, h)) refl

-- The bytes 43 and 79 wait in a buffer.
abbrev two_bytes : Buffer
two_bytes = record { read_index = 0; write_index = 2; buffer = 43 ∷ 79 ∷ [] }

-- A reader that keeps what it is fed, and replies with it.
abbrev keeps : RedisReader (List ℕ)
keeps = record {
  create = [];
  feed = λ xs r. r ++ xs;
  get_reply = λ r. ([], reply (record { type = reply_string; str = r; element = [] }));
}

-- A parser that takes two bytes in all and finds an error in more.
abbrev whole_only : RespParser → List ℕ → Executed
whole_only t s = record {
  callbacks = message_end ∷ [];
  http_errno = if ltb (length (t.buf ++ s)) 3 then 0 else 1;
  nparsed = length s;
}

abbrev http_client : HttpClient
unfolding make_http_client make_parser
http_client = make_http_client [] [] []
