-- ===== src/Net/Timer.antt =====
-- src/net/common/timer/timer.cpp: a handler that the event loop calls once, at a time. The asyncer
-- posts the setting of the event to the loop; its handler is the function on_posted.
pub mod Once
use sheep_cpp.Base.{
  ℕ, Bool, true, false, not, ◌&&◌, Option, none, some, List, [], ◌∷◌, ◌++◌, if◌then◌else◌, ErrMsg,
  empty, says, is_empty,
}
use sheep_cpp.Net.Asyncer
use sheep_cpp.Net.Asyncer.{Asyncer, Called, called, called_if_set, make_asyncer}

pub record Timer : Type 0 where
  pub handler : Option ℕ
  pub asyncer : Option Asyncer
  -- `event_`, with its read notification
  pub event : Option Bool
  pub done : Bool
  pub used : Bool

unfoldable pub make_timer : Bool → Timer
make_timer junk = record { handler = none; asyncer = none; event = none; done = junk; used = false }

-- What AsyncWait has the asyncer do: an error goes to the handler, else the event is set.
unfoldable pub on_posted : ErrMsg → Timer → Timer × List Called
on_posted e t =
    if not (is_empty e)
    then (if not t.done then (record t { done = true }, called_if_set t.handler e) else (t, []))
    else (record t { event = some true }, [])

-- The calls that the asyncer makes.
unfoldable pub deliver : List Called → Timer → Timer × List Called
unfolding on_posted
deliver [] t = (t, [])
deliver (k ∷ ks) t =
    let (t1, calls) = on_posted k.err_msg t in let (t2, more) = deliver ks t1 in (t2, calls ++ more)

cancel_asyncer : Timer → Timer × List Called
unfolding deliver
cancel_asyncer t = elim t.asyncer [
  | none ↦ (t, [])
  | some a ↦ let (a', ks) = Asyncer.cancel a in deliver ks (record t { asyncer = some a' })
]

cancel_event : Timer → Timer × List Called
cancel_event t = elim t.event [
  | none ↦ (t, [])
  | some notify ↦
      if not t.done
      then (
        record t { event = some false; done = true },
        called_if_set t.handler (says "Timer Canceled"),
      )
      else (record t { event = some false }, [])
]

unfoldable pub cancel : Timer → Timer × List Called
unfolding cancel_asyncer cancel_event
cancel t =
    let (t1, calls) = cancel_asyncer t in let (t2, more) = cancel_event t1 in (t2, calls ++ more)

-- The handler that the asyncer has is a function of the timer, so its number does not matter.
unfoldable pub async_wait : Bool → ℕ → Timer → Timer × List Called
unfolding cancel
async_wait junk h t =
    if t.used
    then (t, called h (says "Timer can't reuse"))
    else let (t', calls) = cancel (record t { used = true; done = false }) in
      let (a, ks) = Asyncer.async_do 0 (make_asyncer junk) in
      let (t'', more) = deliver ks (record t' { handler = some h; asyncer = some a }) in
      (t'', calls ++ more)

-- The loop calls the asyncer.
unfoldable pub post : Timer → Timer × List Called
unfolding deliver
post t = elim t.asyncer [
  | none ↦ (t, [])
  | some a ↦ let (a', ks) = Asyncer.fire a in deliver ks (record t { asyncer = some a' })
]

-- The read event of the timer, which the loop calls only while its notification is on.
unfoldable pub fire : Timer → Timer × List Called
fire t = elim t.event [
  | none ↦ (t, [])
  | some notify ↦
      if notify
      then (if not t.done
          then (record t { event = some false; done = true }, called_if_set t.handler empty)
          else (record t { event = some false }, []))
      else (t, [])
]

-- The destructor; the asyncer then goes away, and its handler finds no timer.
unfoldable pub destroy : Timer → List Called
destroy t = if not t.done then called_if_set t.handler (says "Timer Canceled") else []

pub data Op : Type 0 where
  cancels posts fires : Op
  waits : ℕ → Op

unfoldable pub step : Op → Timer → Timer × List Called
unfolding cancel post fire async_wait
step cancels t = cancel t
step posts t = post t
step fires t = fire t
step (waits h) t = async_wait true h t
