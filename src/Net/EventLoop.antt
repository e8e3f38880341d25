-- ===== src/Net/EventLoop.antt =====
-- src/net/common/event_loop.cpp: the pollers by type, and the rounds over them. The events that a
-- poller returned are called in turn. An event that a callback has destroyed meanwhile is passed
-- over. The ids of an event loop's pollers are 0 (epoller), 1 (timers) and 2 (asyncers).
pub mod Round
pub mod Waiting
use sheep_cpp.Base.{
  ℕ, zero, suc, Bool, true, false, not, Option, none, some, List, [], ◌∷◌, ◌++◌, if◌then◌else◌,
  ◌==◌, ltb, ErrMsg, is_empty,
}
use sheep_cpp.Net.Event.{Event, Store, Env, Callback, do_event}

unfoldable pub do_all : Env → List ℕ → Store → Store × List (ℕ × Callback)
unfolding do_event
do_all env [] store = (store, [])
do_all env (i ∷ ids) store = elim (store i) [
  | none ↦ do_all env ids store
  | some e ↦
      let (store1, calls) = do_event env e store in
      let (store2, more) = do_all env ids store1 in (store2, calls ++ more)
]

-- doPoller, on what Poll returned; an error is logged.
unfoldable pub do_poller : Env → ErrMsg → List ℕ → Store → Store × List (ℕ × Callback)
unfolding do_all
do_poller env err_msg ids store =
    if not (is_empty err_msg) then (store, []) else do_all env ids store

-- pollers_ is a map by type, in its order; a pointer that is null is none.
pub record EventLoop (P : Type 0) : Type 0 where
  pub pollers : List (ℕ × Option P)
  pub stop : Bool

-- Insertion into the map, which keeps what a key has.
unfoldable pub insert : {P : Type 0} → ℕ → Option P → List (ℕ × Option P) → List (ℕ × Option P)
insert t p [] = (t, p) ∷ []
insert t p ((u, q) ∷ r) =
    let rest = insert t p r in
    if t == u then (u, q) ∷ r else (if ltb t u then (t, p) ∷ (u, q) ∷ r else (u, q) ∷ rest)

unfoldable pub find : {P : Type 0} → ℕ → List (ℕ × Option P) → Option P
find t [] = none
find t ((u, q) ∷ r) = let rest = find t r in if t == u then q else rest

-- AddPoller, on the type and the poller of a factory.
unfoldable pub add_poller : {P : Type 0} → ℕ → P → EventLoop P → EventLoop P
unfolding insert
add_poller t p l = record l { pollers = insert t (some p) l.pollers }

-- GetPoller: the index operator of the map inserts a null pointer for a type that is missing.
unfoldable pub get_poller : {P : Type 0} → ℕ → EventLoop P → Option P × EventLoop P
unfolding insert find
get_poller t l = let ps = insert t none l.pollers in (find t ps, record l { pollers = ps })

-- The constructor, on the pollers that the three factories create.
unfoldable pub make_event_loop : {P : Type 0} → P → P → P → EventLoop P
unfolding add_poller
make_event_loop epoller timers asyncers =
    add_poller 2 asyncers
      (add_poller 1 timers (add_poller 0 epoller (record { pollers = []; stop = false })))

unfoldable pub stop_loop : {P : Type 0} → EventLoop P → EventLoop P
stop_loop l = record l { stop = true }

-- runOnce. `serve p` is doPoller on p: it changes the loop, on which a callback calls Stop, and
-- the rest of the program. A null pointer in the map is called: none. The map stays as it is.
unfoldable pub run_all :
    {P : Type 0}
    → {W : Type 0} → (P → EventLoop P × W → EventLoop P × W)
    → List (ℕ × Option P)
    → EventLoop P × W
    → Option (EventLoop P × W)
run_all serve [] s = some s
run_all serve ((t, none) ∷ r) s = none
run_all serve ((t, some p) ∷ r) s = run_all serve r (serve p s)

unfoldable pub run_once :
    {P : Type 0}
    → {W : Type 0} → (P → EventLoop P × W → EventLoop P × W)
    → EventLoop P × W
    → Option (EventLoop P × W)
unfolding run_all
run_once serve s = run_all serve s.0.pollers s

-- Wait and loop, for at most `fuel` tests of stop_; none if that is too few.
unfoldable pub wait :
    {P : Type 0}
    → {W : Type 0} → (P → EventLoop P × W → EventLoop P × W)
    → ℕ
    → EventLoop P × W
    → Option (EventLoop P × W)
unfolding run_once
wait serve zero s = none
wait serve (suc fuel) s = elim s.0.stop [
  | true ↦ some s
  | false ↦ elim (run_once serve s) [ none ↦ none | some s1 ↦ wait serve fuel s1 ]
]
