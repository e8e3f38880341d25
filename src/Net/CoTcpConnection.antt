-- ===== src/Net/CoTcpConnection.antt =====
-- src/net/common/tcp/co_tcp_connection.cpp: a connection used by coroutines. The handlers that Read
-- and Write set are the numbers of their coroutines; all that they do is to set the error message
-- and to resume the coroutine, which the calls of an outcome record.
pub mod Reads
use sheep_cpp.Base.{
  ℕ, Bool, true, false, not, Option, none, some, List, [], ◌∷◌, if◌then◌else◌, ◌==◌, ErrMsg, empty,
  is_empty,
}
use sheep_cpp.Net.Asyncer.{Called}
use sheep_cpp.Net.TcpConnection.{
  TcpConnection, Outcome, Env, ◌then_do◌, async_read, async_write, write_buffer_push,
  read_buffer_pop_head, finish,
}
use sheep_cpp.Net.TcpConnection.Reading.{feed}

abbrev pub resumes : Env
resumes coro e c = (c, [])

-- Where the call of a coroutine stands: suspended, or back with the length that it returns, the
-- error message, and the bytes that were read.
pub data Stands : Type 0 where
  suspended : TcpConnection → Stands
  back : ℕ → ErrMsg → List ℕ → TcpConnection → Stands

-- The message that the last handler of `coro` set, if one was called.
unfoldable pub woken_with : ℕ → List Called → Option ErrMsg → Option ErrMsg
woken_with coro [] e = e
woken_with coro (k ∷ ks) e = woken_with coro ks (if k.handler == coro then some k.err_msg else e)

-- Read behind its suspend.
unfoldable pub read_on : ℕ → ErrMsg → TcpConnection → Option Stands
unfolding read_buffer_pop_head
read_on len e c =
    if not (is_empty e)
    then some (back 0 e [] c)
    else elim (read_buffer_pop_head len c) [ none ↦ none | some (bs, c1) ↦ some (back len e bs c1) ]

unfoldable pub go_on : (ErrMsg → TcpConnection → Option Stands) → ℕ → Outcome → Option Stands
unfolding woken_with
go_on rest coro none = none
go_on rest coro (some (c, calls)) = elim (woken_with coro calls none) [
  | none ↦ some (suspended c)
  | some e ↦ rest e c
]

-- Read of a coroutine, while the chunks come in.
unfoldable pub read : List (List ℕ) → ℕ → ℕ → TcpConnection → Option Stands
unfolding go_on read_on async_read feed ◌then_do◌
read chunks len coro c =
    go_on (read_on len) coro (async_read resumes len coro c then_do feed resumes chunks)

-- Write, up to its suspend; `junk` is what an asyncer holds at first.
unfoldable pub write_up_to : Bool → List ℕ → ℕ → TcpConnection → Outcome
unfolding write_buffer_push async_write
write_up_to junk buf coro c = elim (write_buffer_push buf c) [
  | none ↦ none
  | some c1 ↦ async_write resumes junk coro c1
]

-- Write behind its suspend, on the length of what was given.
unfoldable pub write_on : ℕ → ErrMsg → TcpConnection → Option Stands
write_on len e c = some (back len e [] c)

-- Finish
unfoldable pub finish_connection : TcpConnection → Outcome
unfolding finish
finish_connection c = finish resumes empty c
