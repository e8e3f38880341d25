-- ===== src/Net/Event.antt =====
-- src/net/common/event.cpp. An event knows its poller; the calls of the poller are outputs, and the
-- events that are alive are a store by id, in which a weak pointer looks its event up.
use sheep_cpp.Base.{
  ℕ, Bool, true, false, not, ◌&&◌, ◌||◌, Option, none, some, List, [], ◌∷◌, ◌++◌, if◌then◌else◌,
  ◌==◌, ◌≡◌, refl, arith,
}

pub record Event : Type 0 where
  pub fd : ℕ
  pub id : ℕ
  pub read_able : Bool
  pub write_able : Bool
  pub read_notify : Bool
  pub write_notify : Bool

-- What an event calls on its poller.
pub data PollerCall : Type 0 where
  updates removes : PollerCall

abbrev pub Store : Type 0
Store = ℕ → Option Event

unfoldable pub make_event : ℕ → ℕ → Event
make_event fd id = record {
  fd = fd;
  id = id;
  read_able = false;
  write_able = false;
  read_notify = false;
  write_notify = false;
}

unfoldable pub set_read_able : Event → Event
set_read_able e = record e { read_able = true }

unfoldable pub set_write_able : Event → Event
set_write_able e = record e { write_able = true }

-- `alive` tells whether the poller still exists.
unfoldable pub update : Bool → Event → List PollerCall
update alive e =
    if not alive
    then []
    else if not e.read_notify && not e.write_notify
    then removes ∷ []
    else updates ∷ []

pub data Switch : Type 0 where
  enables_read enables_write disables_read disables_write : Switch

unfoldable pub set_notify : Switch → Event → Event
set_notify enables_read e = record e { read_notify = true }
set_notify enables_write e = record e { write_notify = true }
set_notify disables_read e = record e { read_notify = false }
set_notify disables_write e = record e { write_notify = false }

-- EnableReadNotify, EnableWriteNotify, DisableReadNotify and DisableWriteNotify
unfoldable pub switch : Bool → Switch → Event → Event × List PollerCall
unfolding update set_notify
switch alive s e = let e' = set_notify s e in (e', update alive e')

-- The destructor.
unfoldable pub destroy_event : Bool → Event → List PollerCall
destroy_event alive e =
    if not alive then [] else if e.read_notify || e.write_notify then removes ∷ [] else []

pub data Callback : Type 0 where
  reads writes : Callback

abbrev pub put_event : Store → ℕ → Event → Store
put_event store k e j = if j == k then some e else store j

-- What the callback of an event does to the events: it may destroy some, its own among them.
abbrev pub Env : Type 0
Env = ℕ → Callback → Store → Store

unfoldable pub clear_read_able : ℕ → Store → Store
clear_read_able i store = elim (store i) [
  | none ↦ store
  | some e ↦ put_event store i (record e { read_able = false })
]

unfoldable pub clear_write_able : ℕ → Store → Store
clear_write_able i store = elim (store i) [
  | none ↦ store
  | some e ↦ put_event store i (record e { write_able = false })
]

-- Do, with the callbacks that it calls.
unfoldable pub do_event : Env → Event → Store → Store × List (ℕ × Callback)
unfolding clear_read_able clear_write_able
do_event env e store =
    if e.read_able && e.read_notify
    then (clear_read_able e.id (env e.id reads store), (e.id, reads) ∷ [])
    else if e.write_able && e.write_notify
    then (clear_write_able e.id (env e.id writes store), (e.id, writes) ∷ [])
    else (store, [])

-- The calls of the poller that switches make, and whether it then watches the event.
unfoldable pub switch_all : List Switch → Event → Event × List PollerCall
unfolding switch
switch_all [] e = (e, [])
switch_all (s ∷ ss) e =
    let (e1, calls) = switch true s e in let (e2, more) = switch_all ss e1 in (e2, calls ++ more)

abbrev pub watched : Bool → List PollerCall → Bool
watched b [] = b
watched b (updates ∷ cs) = watched true cs
watched b (removes ∷ cs) = watched false cs

abbrev pub wants : Event → Bool
wants e = e.read_notify || e.write_notify

-- Through any sequence of switching notifications on and off, a poller that follows the calls of
-- the event watches it exactly if one of its notifications is on, if that was so before.
switch_all-watched :
    (ss : List Switch) (e : Event)
    → watched (wants e) (switch_all ss e).1 ≡ wants (switch_all ss e).0
unfolding switch_all switch update set_notify
switch_all-watched [] e = refl
switch_all-watched (enables_read ∷ ss) e = switch_all-watched ss (record e { read_notify = true })
switch_all-watched (enables_write ∷ ss) e =
    let r = switch_all-watched ss (record e { write_notify = true }) in ground (arith, r)
switch_all-watched (disables_read ∷ ss) e =
    let r = switch_all-watched ss (record e { read_notify = false }) in ground (arith, r)
switch_all-watched (disables_write ∷ ss) e =
    let r = switch_all-watched ss (record e { write_notify = false }) in ground (arith, r)
