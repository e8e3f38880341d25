-- ===== src/SmallClient/BaseClient.antt =====
-- doReq of src/small_client/base_client.h: a request on a client of the pool. What ReqPush and RespPop of
-- the derived class do is an input; calls of onDone and of the pool's Insert are outputs.
pub mod Once
use sheep_cpp.Base.{
  ℕ, Bool, true, false, not, Option, none, some, List, [], ◌∷◌, ◌++◌, if◌then◌else◌, ◌==◌, ErrMsg,
  empty, says, is_empty,
}

pub record BaseClient : Type 0 where
  -- client_
  pub client : Option ℕ
  pub timeout_ms : ℕ
  -- timer_
  pub timer : Bool
  pub finished : Bool
  -- the callbacks of the timer and of the connection that are set
  pub timeout_set : Bool
  pub write_set : Bool
  pub read_set : Bool

unfoldable pub make_base_client : ℕ → BaseClient
make_base_client timeout_ms = record {
  client = none;
  timeout_ms = timeout_ms;
  timer = false;
  finished = false;
  timeout_set = false;
  write_set = false;
  read_set = false;
}

pub data Output : Type 0 where
  on_done : ErrMsg → Output
  -- ClientPool::Insert
  given_back : ℕ → ErrMsg → Output

abbrev pub Acted : Type 0
Acted = BaseClient × List Output

-- `none` is a null client.
unfoldable pub finish : ErrMsg → BaseClient → Option Acted
finish e c = if c.finished then some (c, []) else elim c.client [
  | none ↦ none
  | some id ↦ some (record c { finished = true }, on_done e ∷ given_back id e ∷ [])
]

-- doReq: the pool that the channel gives, the client that the pool gives, the message of ReqPush.
unfoldable pub do_req : Bool → Option ℕ → ErrMsg → BaseClient → Option Acted
unfolding finish
do_req ok got pushed c =
    if not ok then some (c, on_done (says "clientPool nullptr") ∷ []) else elim got [
      | none ↦ some (record c { client = none }, on_done (says "client nullptr") ∷ [])
      | some id ↦
          let c' = record c { client = some id } in
          if not (is_empty pushed)
          then finish pushed c'
          else some (
            record c' {
              timer = not (c'.timeout_ms == 0);
              timeout_set = not (c'.timeout_ms == 0);
              write_set = true;
            },
            [],
          )
    ]

-- The callback of the timer, which is called once.
unfoldable pub on_timer : ErrMsg → BaseClient → Option Acted
unfolding finish
on_timer e c =
    let c' = record c { timeout_set = false } in
    if not (is_empty e) then some (c', []) else finish (says "timeout") c'

-- The callback of AsyncWrite.
unfoldable pub on_written : ErrMsg → BaseClient → Option Acted
unfolding finish
on_written e c = if not (is_empty e) then finish e c else some (record c { read_set = true }, [])

-- The callback of AsyncReadAny: RespPop's message, and whether the response is complete.
unfoldable pub on_read : ErrMsg → ErrMsg → Bool → BaseClient → Option Acted
unfolding finish
on_read e popped complete c =
    -- timer_->Cancel()
    let c' = record c { timeout_set = false } in
    if not (is_empty e)
    then finish e c'
    else if not (is_empty popped)
    then finish popped c'
    else if complete
    then finish empty c'
    else some (c', [])

-- The callbacks in any order, each only while it is set.
pub data Event : Type 0 where
  timed written : ErrMsg → Event
  read : ErrMsg → ErrMsg → Bool → Event

unfoldable pub step : Event → BaseClient → Option Acted
unfolding on_timer on_written on_read
step (timed e) c = if c.timeout_set then on_timer e c else some (c, [])
step (written e) c = if c.write_set then on_written e c else some (c, [])
step (read e popped complete) c = if c.read_set then on_read e popped complete c else some (c, [])

unfoldable pub run : List Event → BaseClient → Option Acted
unfolding step
run [] c = some (c, [])
run (ev ∷ evs) c = elim (step ev c) [
  | none ↦ none
  | some (c', out) ↦ elim (run evs c') [ none ↦ none | some (d, more) ↦ some (d, out ++ more) ]
]

-- doReq, and the callbacks that follow.
unfoldable pub request : ℕ → Bool → Option ℕ → ErrMsg → List Event → Option Acted
unfolding do_req run make_base_client
request timeout_ms ok got pushed evs = elim (do_req ok got pushed (make_base_client timeout_ms)) [
  | none ↦ none
  | some (c, out) ↦ elim (run evs c) [ none ↦ none | some (d, more) ↦ some (d, out ++ more) ]
]
