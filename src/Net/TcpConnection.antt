-- ===== src/Net/TcpConnection.antt =====
-- src/net/common/tcp/tcp_connection.cpp. The results of the socket's system calls are inputs. A handler is
-- a number; what it does to the connection while it is called, and what it calls in turn, is given by
-- an environment. `none` is a fault: a null event or handler, or an access outside of a buffer.
pub mod Reading
pub mod Writing
pub mod Finishing
use sheep_cpp.Base.{
  ℕ, zero, suc, ◌+◌, ◌%◌, Bool, true, false, not, ◌&&◌, ◌||◌, Option, none, some, List, [], ◌∷◌,
  ◌++◌, if◌then◌else◌, ◌==◌, leb, length, ErrMsg, empty, says, is_empty,
}
use sheep_cpp.Net.Asyncer.{Asyncer, Called, make_asyncer, async_do, cancel, destroy}
use sheep_cpp.Net.Buffer
use sheep_cpp.Net.Buffer.{Buffer, u64}
use sheep_cpp.Net.Socket.{
  IoResult, moved, failed, Count, bytes, minus_one, read_count, io_err_msg, as_u64,
}

-- The notifications that the connection's event asks for.
pub record Notify : Type 0 where
  pub read_notify : Bool
  pub write_notify : Bool

pub record TcpConnection : Type 0 where
  pub read_buffer : Buffer
  pub write_buffer : Buffer
  pub expect_size : ℕ
  pub readed_size : ℕ
  pub any_flag : Bool
  pub finished : Bool
  pub user_read_handler : Option ℕ
  pub write_done : Bool
  pub user_write_handler : Option ℕ
  pub finish_handler : Option ℕ
  pub event : Option Notify
  pub asyncer : Option Asyncer

-- What comes of an operation: the connection, and the handlers that were called, in order.
abbrev pub Outcome : Type 0
Outcome = Option (TcpConnection × List Called)

abbrev pub Env : Type 0
Env = ℕ → ErrMsg → TcpConnection → TcpConnection × List Called

unfoldable pub call : Env → ℕ → ErrMsg → TcpConnection → TcpConnection × List Called
call env h e c = let (c', more) = env h e c in (c', record { handler = h; err_msg = e } ∷ more)

-- A std::function that is empty cannot be called.
unfoldable pub call_set : Env → Option ℕ → ErrMsg → TcpConnection → Outcome
unfolding call
call_set env none e c = none
call_set env (some h) e c = some (call env h e c)

-- One operation after another, with the calls of both.
infixl 5 ◌then_do◌
unfoldable pub ◌then_do◌ : Outcome → (TcpConnection → Outcome) → Outcome
none then_do f = none
some (c, calls) then_do f = elim (f c) [ none ↦ none | some (c', more) ↦ some (c', calls ++ more) ]

abbrev pub silent : TcpConnection → Outcome
silent c = some (c, [])

unfoldable pub reset_read : TcpConnection → TcpConnection
reset_read c = record c { expect_size = 0; readed_size = 0 }

unfoldable pub reset : TcpConnection → TcpConnection
unfolding reset_read Buffer.reset
reset c = reset_read (record c {
  finished = false;
  user_read_handler = none;
  write_done = false;
  user_write_handler = none;
  any_flag = false;
  read_buffer = Buffer.reset c.read_buffer;
  write_buffer = Buffer.reset c.write_buffer;
})

-- InitConnected: the read event is set, and its notification put on.
unfoldable pub init_connected : TcpConnection → Option (TcpConnection × ErrMsg)
init_connected c = elim c.finish_handler [
  | none ↦ some (c, says "invalid finish handler")
  | some h ↦ elim c.event [
    | none ↦ none
    | some n ↦ some (record c { event = some (record n { read_notify = true }) }, empty)
  ]
]

-- InitAccepted, with the messages of SetNoblock and SetNoDelay.
unfoldable pub init_accepted : ErrMsg → ErrMsg → TcpConnection → Option (TcpConnection × ErrMsg)
unfolding init_connected
init_accepted noblock nodelay c = elim c.finish_handler [
  | none ↦ some (c, says "invalid finish handler")
  | some h ↦
      if not (is_empty noblock)
      then some (c, noblock)
      else if not (is_empty nodelay)
      then some (c, nodelay)
      else init_connected c
]

unfoldable pub async_read : Env → ℕ → ℕ → TcpConnection → Outcome
unfolding call reset_read
async_read env expect_size h c =
    if leb expect_size c.readed_size
    then some (call env h empty (reset_read (record c { any_flag = false })))
    else silent
        (record c { any_flag = false; expect_size = expect_size; user_read_handler = some h })

unfoldable pub async_read_any : Env → ℕ → TcpConnection → Outcome
unfolding call reset_read
async_read_any env h c =
    let c' = record c { any_flag = true; user_read_handler = some h } in
    if c.readed_size == 0 then silent c' else some (call env h empty (reset_read c'))

-- The handlers that an asyncer calls here all pass an error on to the user's handler.
unfoldable pub pass_on : Env → List Called → TcpConnection → Outcome
unfolding call ◌then_do◌
pass_on env [] c = silent c
pass_on env (k ∷ ks) c = some (call env k.handler k.err_msg c) then_do pass_on env ks

dropped : Option Asyncer → List Called
dropped none = []
dropped (some a) = destroy a

-- asyncer_->AsyncDo(...)
post : Env → ℕ → TcpConnection → Outcome
post env h c = elim c.asyncer [
  | none ↦ none
  | some a ↦ let (a', calls) = async_do h a in pass_on env calls (record c { asyncer = some a' })
]

-- AsyncWrite up to the return; the asyncer's handler follows, as write_posted.
unfoldable pub async_write : Env → Bool → ℕ → TcpConnection → Outcome
unfolding call ◌then_do◌ pass_on dropped post
async_write env junk h c =
    if c.finished then some (call env h (says "Finished") c) else elim c.event [
      | none ↦ none
      | some n ↦
          pass_on env (dropped c.asyncer) (record c { asyncer = some (make_asyncer junk) })
          then_do post env h
    ]

-- What AsyncWrite has the loop do: an error goes to the handler, else the write event is set up.
unfoldable pub write_posted : Env → ℕ → ErrMsg → TcpConnection → Outcome
unfolding call
write_posted env h e c = if not (is_empty e) then some (call env h e c) else elim c.event [
  | none ↦ none
  | some n ↦
      silent
        (record c { user_write_handler = some h; event = some (record n { write_notify = true }) })
]

cancel_asyncer : Env → TcpConnection → Outcome
cancel_asyncer env c = elim c.asyncer [
  | none ↦ silent c
  | some a ↦ let (a', calls) = cancel a in pass_on env calls (record c { asyncer = some a' })
]

finish_writer : Env → TcpConnection → Outcome
finish_writer env c = elim c.user_write_handler [
  | none ↦ silent c
  | some h ↦
      if not c.write_done
      then some (call env h (says "Finished") (record c { write_done = true }))
      else silent c
]

unfoldable pub finish : Env → ErrMsg → TcpConnection → Outcome
unfolding call call_set ◌then_do◌ pass_on cancel_asyncer finish_writer
finish env e c =
    if c.finished
    then silent c
    else (cancel_asyncer env (record c { finished = true }) then_do finish_writer env then_do λ c'.
        call_set env c'.finish_handler e (record c' { event = none }))

-- A user's read handler, if one is set.
unfoldable pub notify_reader : Env → ErrMsg → TcpConnection → Outcome
unfolding call reset_read
notify_reader env e c = elim c.user_read_handler [
  | none ↦ silent c
  | some h ↦ some (call env h e (reset_read c))
]

-- The first error test of readHandler: no bytes mean that the peer has finished.
unfoldable pub read_err_msg : IoResult → ErrMsg
unfolding io_err_msg
read_err_msg (moved []) = says "Finished"
read_err_msg (moved (b ∷ bs)) = io_err_msg (moved (b ∷ bs))
read_err_msg (failed errno) = io_err_msg (failed errno)

-- The rest of readHandler, on the bytes that came.
unfoldable pub receive : Env → List ℕ → TcpConnection → Outcome
unfolding notify_reader
receive env bs c = elim (Buffer.write bs c.read_buffer) [
  | none ↦ none
  | some b ↦
      let c' = record c { read_buffer = b; readed_size = (c.readed_size + length bs) % u64 } in
      if c'.any_flag || leb c'.expect_size c'.readed_size
      then notify_reader env empty c'
      else silent c'
]

unfoldable pub received : IoResult → List ℕ
received (moved bs) = bs
received (failed errno) = []

unfoldable pub read_handler : Env → IoResult → TcpConnection → Outcome
unfolding read_err_msg receive received notify_reader finish read_count
read_handler env r c =
    let e = read_err_msg r in
    if not (is_empty e)
    then (notify_reader env e c then_do finish env e)
    else elim (read_count r) [ minus_one ↦ silent c | bytes n ↦ receive env (received r) c ]

-- The end of a write: nothing is left to send.
write_finished : Env → TcpConnection → Outcome
write_finished env c = elim c.event [
  | none ↦ none
  | some n ↦
      call_set env c.user_write_handler empty
        (record c { write_done = true; event = some (record n { write_notify = false }) })
]

-- writeHandler after the call of write(2), whose count moves the read index as a uint64_t.
unfoldable pub sent : Env → IoResult → TcpConnection → Outcome
unfolding call_set ◌then_do◌ finish io_err_msg read_count as_u64
sent env r c =
    let c' = record c {
      write_buffer = Buffer.update_read_index (as_u64 (read_count r)) c.write_buffer;
    } in
    let e = io_err_msg r in
    if not (is_empty e)
    then (call_set env c'.user_write_handler e (record c' { write_done = true })
        then_do finish env e)
    else silent c'

-- With the bytes that the kernel takes of the at most 1024 that it is offered.
unfoldable pub write_handler : Env → (List ℕ → IoResult) → TcpConnection → Outcome × List ℕ
unfolding sent write_finished received
write_handler env kernel c = elim (Buffer.read 1024 c.write_buffer) [
  | none ↦ (none, [])
  | some [] ↦ (write_finished env c, [])
  | some (b ∷ bs) ↦ let r = kernel (b ∷ bs) in (sent env r c, received r)
]

unfoldable pub write_buffer_push : List ℕ → TcpConnection → Option TcpConnection
write_buffer_push buf c = elim (Buffer.push buf c.write_buffer) [
  | none ↦ none
  | some b ↦ some (record c { write_buffer = b })
]

unfoldable pub read_buffer_pop_head : ℕ → TcpConnection → Option (List ℕ × TcpConnection)
read_buffer_pop_head len c = elim (Buffer.pop_head len c.read_buffer) [
  | none ↦ none
  | some (bs, b) ↦ some (bs, record c { read_buffer = b })
]
