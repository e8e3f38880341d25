-- ===== src/Net/TimerPoller.antt =====
-- src/net/common/poller/timer_poller.cpp: for each time a sorted map of events, and the set of the ids
-- that are watched. The time of an event is its fd. A weak pointer is the event's id.
pub mod Maps
pub mod Ids
pub mod Timed
pub mod Updated
pub mod Watched
use sheep_cpp.Base.{
  ℕ, zero, suc, ◌+◌, Bool, true, false, not, Option, none, some, List, [], ◌∷◌, ◌++◌, if◌then◌else◌,
  ◌==◌, ltb, length,
}
use sheep_cpp.Net.Event.{Event, Store, set_read_able, put_event}

-- The maps are lists in the order of their keys.
pub record TimerPoller : Type 0 where
  pub events : List (ℕ × List ℕ)
  pub event_set : ℕ → Bool

unfoldable pub make_timer_poller : TimerPoller
make_timer_poller = record { events = []; event_set = λ i. false }

-- map->insert({id, event})
unfoldable pub insert_id : ℕ → List ℕ → List ℕ
insert_id i [] = i ∷ []
insert_id i (j ∷ js) =
    let rest = insert_id i js in if ltb i j then i ∷ j ∷ js else if i == j then j ∷ js else j ∷ rest

-- events_.find(timeFd), a new map if there is none, and the insertion of the event.
unfoldable pub add_event : ℕ → ℕ → List (ℕ × List ℕ) → List (ℕ × List ℕ)
unfolding insert_id
add_event t i [] = (t, i ∷ []) ∷ []
add_event t i ((u, ids) ∷ r) =
    let rest = add_event t i r in
    if ltb t u
    then (t, i ∷ []) ∷ (u, ids) ∷ r
    else if t == u
    then (u, insert_id i ids) ∷ r
    else (u, ids) ∷ rest

unfoldable pub find_time : ℕ → List (ℕ × List ℕ) → Option (List ℕ)
find_time t [] = none
find_time t ((u, ids) ∷ r) = let rest = find_time t r in if t == u then some ids else rest

-- events_.erase(timeFd)
unfoldable pub erase_time : ℕ → List (ℕ × List ℕ) → List (ℕ × List ℕ)
erase_time t [] = []
erase_time t ((u, ids) ∷ r) = let rest = erase_time t r in if t == u then r else (u, ids) ∷ rest

-- map->erase(id)
unfoldable pub erase_id : ℕ → List ℕ → List ℕ
erase_id i [] = []
erase_id i (j ∷ js) = let rest = erase_id i js in if i == j then js else j ∷ rest

unfoldable pub erase_event : ℕ → ℕ → List (ℕ × List ℕ) → List (ℕ × List ℕ)
unfolding erase_id
erase_event t i [] = []
erase_event t i ((u, ids) ∷ r) =
    let rest = erase_event t i r in if t == u then (u, erase_id i ids) ∷ r else (u, ids) ∷ rest

-- `time` is the fd of the event; `none` is the line that logs "can't reach" as fatal.
unfoldable pub remove_event : ℕ → ℕ → TimerPoller → Option TimerPoller
unfolding find_time erase_time erase_event
remove_event time id p =
    if not (p.event_set id)
    then some p
    else let set : ℕ → Bool = λ j. if j == id then false else p.event_set j in
      elim (find_time time p.events) [
        | none ↦ none
        | some ids ↦
            if length ids == 1
            then some (record { events = erase_time time p.events; event_set = set })
            else some (record { events = erase_event time id p.events; event_set = set })
      ]

-- `none` is also a recursion deeper than the fuel.
unfoldable pub update_event : ℕ → ℕ → ℕ → TimerPoller → Option TimerPoller
unfolding add_event remove_event
update_event zero time id p = none
update_event (suc fuel) time id p =
    let again : Option TimerPoller = elim (remove_event time id p) [
      | none ↦ none
      | some p' ↦ update_event fuel time id p'
    ] in
    if not (p.event_set id)
    then some (record {
      events = add_event time id p.events;
      event_set = λ j. if j == id then true else p.event_set j;
    })
    else again

-- The events before events_.upper_bound(now), in the order of the maps.
unfoldable pub due : ℕ → List (ℕ × List ℕ) → List ℕ
due now [] = []
due now ((u, ids) ∷ r) = let rest = due now r in if ltb now u then [] else ids ++ rest

-- The second loop of Poll: the events that it returns, each marked as readable.
unfoldable pub poll_due : List ℕ → Store → List ℕ × Store
unfolding set_read_able
poll_due [] store = ([], store)
poll_due (i ∷ q) store = elim (store i) [
  | none ↦ poll_due q store
  | some e ↦
      let (ids, store') = poll_due q (put_event store i (set_read_able e)) in (i ∷ ids, store')
]

unfoldable pub poll : ℕ → TimerPoller → Store → List ℕ × Store
unfolding due poll_due
poll now p store = poll_due (due now p.events) store
