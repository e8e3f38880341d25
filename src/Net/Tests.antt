-- ===== src/Net/Tests.antt =====
-- The theorems on src/net/common at concrete inputs.
use sheep_cpp.Base.{
  ◌≡◌, refl, true, false, some, none, [], ◌∷◌, ◌++◌, arith, empty, says, take, drop,
}
use sheep_cpp.Net.Asyncer.{make_asyncer, cancels, fires, does}
use sheep_cpp.Net.Asyncer.Once.{life, expected, life-expected}
use sheep_cpp.Net.Buffer
use sheep_cpp.Net.Buffer.{Buffer}
use sheep_cpp.Net.Buffer.Queue.{Holds, push-Holds, pop_head-Holds}
use sheep_cpp.Net.TcpConnection.{TcpConnection, Env, finish}
use sheep_cpp.Net.TcpConnection.Reading.{Reading}
use sheep_cpp.Net.CoTcpConnection.{back, read}
use sheep_cpp.Net.CoTcpConnection.Reads.{read-whole}
use sheep_cpp.Net.TcpConnection.Writing.{Sending, flush, flush-Sending}
use sheep_cpp.Net.TcpConnection.Finishing.{owed, finish-owed}

life-expected_example :
    life (does 7 ∷ fires ∷ does 8 ∷ cancels ∷ []) (make_asyncer true)
    ≡ expected 7 (fires ∷ does 8 ∷ cancels ∷ [])
life-expected_example = life-expected 7 (fires ∷ does 8 ∷ cancels ∷ []) true

-- One byte was read, two wait.
abbrev two_bytes : Buffer
two_bytes = record { read_index = 1; write_index = 3; buffer = 9 ∷ 4 ∷ 5 ∷ [] }

two_bytes-Holds : Holds two_bytes (4 ∷ 5 ∷ [])
two_bytes-Holds = record {
  done = 9 ∷ [];
  spare = [];
  layout = refl;
  at_read = refl;
  at_write = refl;
  small = omega arith;
}

push-Holds_example :
    (b' : Buffer) × (Buffer.push (6 ∷ 7 ∷ []) two_bytes ≡ some b')
    × Holds b' ((4 ∷ 5 ∷ []) ++ 6 ∷ 7 ∷ [])
    × (b'.write_index ≡ 5)
push-Holds_example = push-Holds (6 ∷ 7 ∷ []) two_bytes (4 ∷ 5 ∷ []) two_bytes-Holds (omega arith)

pop_head-Holds_example :
    (b' : Buffer) × (Buffer.pop_head 1 two_bytes ≡ some (take 1 (4 ∷ 5 ∷ []), b'))
    × Holds b' (drop 1 (4 ∷ 5 ∷ []))
pop_head-Holds_example = pop_head-Holds 1 two_bytes (4 ∷ 5 ∷ []) two_bytes-Holds (omega arith)

-- Handlers that do nothing.
abbrev quiet : Env
quiet h e c = (c, [])

-- Two bytes wait on either side; the reader 3 expects four.
abbrev idle_conn : TcpConnection
idle_conn = record {
  read_buffer = two_bytes;
  write_buffer = two_bytes;
  expect_size = 4;
  readed_size = 2;
  any_flag = false;
  finished = false;
  user_read_handler = some 3;
  write_done = false;
  user_write_handler = some 5;
  finish_handler = some 6;
  event = some (record { read_notify = true; write_notify = true });
  asyncer = none;
}

idle_conn-Reading : Reading idle_conn (4 ∷ 5 ∷ []) 2 4 3
idle_conn-Reading = record {
  holds = two_bytes-Holds;
  any = refl;
  came = refl;
  expected = refl;
  reader = refl;
}

idle_conn-Sending : Sending idle_conn (4 ∷ 5 ∷ [])
idle_conn-Sending = record {
  holds = two_bytes-Holds;
  room = omega arith;
  ready = (record { read_notify = true; write_notify = true }, refl);
}

flush-Sending_example :
    (c' : TcpConnection) × (flush quiet (1 ∷ []) idle_conn ≡ some (c', 4 ∷ [], []))
    × Sending c' (5 ∷ [])
flush-Sending_example =
    flush-Sending quiet (1 ∷ []) (4 ∷ 5 ∷ []) idle_conn idle_conn-Sending
      ((omega arith, omega arith), tt) (omega arith)

-- The same connection with all bytes sent.
abbrev drained : TcpConnection
drained = record idle_conn {
  write_buffer = record { read_index = 0; write_index = 0; buffer = [] };
}

drained-Sending : Sending drained []
drained-Sending = record {
  holds = record {
    done = [];
    spare = [];
    layout = refl;
    at_read = refl;
    at_write = refl;
    small = omega arith;
  };
  room = omega arith;
  ready = (record { read_notify = true; write_notify = true }, refl);
}

-- The same connection while the handler 8 of a write waits for the loop.
abbrev posted_conn : TcpConnection
posted_conn = record idle_conn {
  asyncer = some (record { handler = some 8; event = some true; done = false; used = true });
}

finish-owed_example :
    (c' : TcpConnection) × (finish quiet (says "reset by peer") posted_conn
      ≡ some (c', owed posted_conn (says "reset by peer") 6))
    × (c'.finished ≡ true)
    × (c'.event ≡ none)
finish-owed_example =
    finish-owed quiet (λ h e d. refl) posted_conn (says "reset by peer") 6 refl refl

-- The coroutine 3 reads four bytes, of which two wait and count; three more come in two chunks.
read-whole_example :
    (c' : TcpConnection) × (read ((6 ∷ []) ∷ (7 ∷ 8 ∷ []) ∷ []) 4 3 idle_conn
      ≡ some (back 4 empty (take 4 (4 ∷ 5 ∷ 6 ∷ 7 ∷ 8 ∷ [])) c'))
    × Holds c'.read_buffer (drop 4 (4 ∷ 5 ∷ 6 ∷ 7 ∷ 8 ∷ []))
read-whole_example =
    read-whole ((6 ∷ []) ∷ []) 7 (8 ∷ []) idle_conn (4 ∷ 5 ∷ []) 2 4 3 two_bytes-Holds refl
      (omega arith) (omega arith, tt) (omega arith, omega arith) (omega arith) (omega arith)
