-- ===== src/Net/AsyncerPoller.antt =====
-- src/net/common/poller/asyncer_poller.cpp: a list of weak pointers to events, and a map from ids to
-- iterators. An iterator is the address of a node of the list; a weak pointer is the event's id.
pub mod Order
pub mod Polling
use sheep_cpp.Base.{
  ℕ, zero, suc, ◌+◌, Bool, true, false, Option, none, some, List, [], ◌∷◌, ◌++◌, if◌then◌else◌,
  ◌==◌,
}
use sheep_cpp.Net.Event.{Event, Store, set_read_able, put_event}

pub record AsyncerPoller : Type 0 where
  pub events : List (ℕ × ℕ)
  pub event_map : ℕ → Option ℕ
  -- an address that no node has had
  pub next_node : ℕ

unfoldable pub make_asyncer_poller : AsyncerPoller
make_asyncer_poller = record { events = []; event_map = λ i. none; next_node = 0 }

abbrev pub put : (ℕ → Option ℕ) → ℕ → Option ℕ → ℕ → Option ℕ
put f k v j = if j == k then v else f j

-- events_.erase(iter)
unfoldable pub erase_node : ℕ → List (ℕ × ℕ) → List (ℕ × ℕ)
erase_node n [] = []
erase_node n ((m, i) ∷ q) = let rest = erase_node n q in if m == n then rest else (m, i) ∷ rest

unfoldable pub remove_event : ℕ → AsyncerPoller → AsyncerPoller
unfolding erase_node
remove_event id p = elim (p.event_map id) [
  | none ↦ p
  | some node ↦ record p { events = erase_node node p.events; event_map = put p.event_map id none }
]

-- `none` is a recursion deeper than the fuel.
unfoldable pub update_event : ℕ → ℕ → AsyncerPoller → Option AsyncerPoller
unfolding remove_event
update_event zero id p = none
update_event (suc fuel) id p = elim (p.event_map id) [
  | none ↦ some (record p {
    events = p.events ++ (p.next_node, id) ∷ [];
    event_map = put p.event_map id (some p.next_node);
    next_node = p.next_node + 1;
  })
  | some node ↦ update_event fuel id (remove_event id p)
]

-- The loop of Poll: the events that it returns, each marked as readable.
unfoldable pub poll_all : List (ℕ × ℕ) → Store → List ℕ × Store
unfolding set_read_able
poll_all [] store = ([], store)
poll_all ((n, i) ∷ q) store = elim (store i) [
  | none ↦ poll_all q store
  | some e ↦
      let (ids, store') = poll_all q (put_event store i (set_read_able e)) in (i ∷ ids, store')
]

unfoldable pub poll : AsyncerPoller → Store → List ℕ × Store
unfolding poll_all
poll p store = poll_all p.events store
