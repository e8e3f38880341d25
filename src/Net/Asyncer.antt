-- ===== src/Net/Asyncer.antt =====
-- src/net/common/asyncer/asyncer.cpp: a handler that the event loop calls once. A call of a handler is
-- an output; each operation makes at most one, as its last act.
pub mod Once
use sheep_cpp.Base.{
  ℕ, Bool, true, false, not, Option, none, some, List, [], ◌∷◌, if◌then◌else◌, ErrMsg, empty, says,
}

pub record Asyncer : Type 0 where
  pub handler : Option ℕ
  -- `event_`, with its read notification
  pub event : Option Bool
  pub done : Bool
  pub used : Bool

-- A call of a handler.
pub record Called : Type 0 where
  pub handler : ℕ
  pub err_msg : ErrMsg

abbrev pub called : ℕ → ErrMsg → List Called
called h e = record { handler = h; err_msg = e } ∷ []

abbrev pub called_if_set : Option ℕ → ErrMsg → List Called
called_if_set none e = []
called_if_set (some h) e = called h e

-- `done_` has no initial value.
unfoldable pub make_asyncer : Bool → Asyncer
make_asyncer junk = record { handler = none; event = none; done = junk; used = false }

abbrev disabled : Option Bool → Option Bool
disabled none = none
disabled (some notify) = some false

unfoldable pub cancel : Asyncer → Asyncer × List Called
cancel a = elim a.event [
  | none ↦ (a, [])
  | some notify ↦
      if not a.done
      then (
        record a { event = some false; done = true },
        called_if_set a.handler (says "Asyncer Canceled"),
      )
      else (record a { event = some false }, [])
]

unfoldable pub async_do : ℕ → Asyncer → Asyncer × List Called
unfolding cancel
async_do h a =
    if a.used
    then (a, called h (says "Asyncer can't reuse"))
    else let (a', calls) = cancel (record a { used = true; done = false }) in
      (record a' { handler = some h; event = some true }, calls)

-- The read event: the loop calls it only while the notification is on.
unfoldable pub fire : Asyncer → Asyncer × List Called
fire a = elim a.event [
  | none ↦ (a, [])
  | some notify ↦
      if notify
      then (if not a.done
          then (record a { event = some false; done = true }, called_if_set a.handler empty)
          else (record a { event = some false }, []))
      else (a, [])
]

-- The destructor.
unfoldable pub destroy : Asyncer → List Called
destroy a = if not a.done then called_if_set a.handler (says "Asyncer Canceled") else []

pub data Op : Type 0 where
  cancels fires : Op
  does : ℕ → Op

unfoldable pub step : Op → Asyncer → Asyncer × List Called
unfolding cancel fire async_do
step cancels a = cancel a
step fires a = fire a
step (does h) a = async_do h a
