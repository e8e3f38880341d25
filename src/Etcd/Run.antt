-- ===== src/Etcd/Run.antt =====
-- The runs of src/extends/small_watcher/etcd/etcd.cpp: calls of its functions, replies and timers, in any
-- order.
use sheep_cpp.Base.{
  ℕ, Bool, true, false, Option, none, some, List, [], ◌∷◌, String, if◌then◌else◌, ◌==◌, ErrMsg,
  empty, take_by,
}
use sheep_cpp.Etcd.{
  user_list, user_notify, Etcd, list, watch_once, create_ephemeral, start_list_watch,
}
use sheep_cpp.Etcd.Replies.{Reply, on_done, on_timer}

pub data Event : Type 0 where
  -- CreateEphemeral, ListWatch, List, WatchOnce
  call_create : String → String → Event
  call_list_watch : String → ℕ → Event
  call_list : String → ℕ → Event
  call_watch_once : ℕ → String → ℕ → Event
  -- the onDone of the HttpClient `id`; the Bool is what a user's function sets `stop` to
  done : ℕ → Reply → Bool → Event
  -- the callback of the Timer `id`
  fired : ℕ → ErrMsg → Event

abbrev pub contains : ℕ → List ℕ → Bool
contains x [] = false
contains x (y ∷ ys) = let rest = contains x ys in if y == x then true else rest

-- An object that is destroyed calls nothing any more. `none` is a crash.
unfoldable pub step : (String → Option ℕ) → Event → Etcd → Option Etcd
unfolding create_ephemeral start_list_watch list watch_once take_by on_done on_timer
step stoll (call_create path value) s = some (create_ephemeral path value empty s)
step stoll (call_list_watch path func) s = some (start_list_watch path func s)
step stoll (call_list path func) s = some (list path (user_list func) s)
step stoll (call_watch_once after path func) s = some (watch_once after path (user_notify func) s)
step stoll (done id reply stop) s = elim (take_by (λ r. r.id) id s.requests) [
  | none ↦ some s
  | some (r, rest) ↦
      if contains id s.http_clients
      then on_done stoll id r.task reply stop (record s { requests = rest })
      else some s
]
step stoll (fired id err) s = elim (take_by (λ w. w.id) id s.waits) [
  | none ↦ some s
  | some (w, rest) ↦
      if contains id s.timers
      then some (on_timer id w.alarm err (record s { waits = rest }))
      else some s
]

unfoldable pub run : (String → Option ℕ) → List Event → Etcd → Option Etcd
unfolding step
run stoll [] s = some s
run stoll (e ∷ es) s = elim (step stoll e s) [ none ↦ none | some s' ↦ run stoll es s' ]
