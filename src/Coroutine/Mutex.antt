-- ===== src/Coroutine/Mutex.antt =====
-- Mutex of src/coroutine/coroutine_mutex.h. Coroutines and threads may lock it; a section under `mtx_` is
-- one step, and a suspension ends a section.
pub mod Counts
pub mod Invariant
pub mod Exclusion
use sheep_cpp.Base.{
  ℕ, zero, suc, ◌+◌, ◌-◌, Bool, true, false, List, [], ◌∷◌, if◌then◌else◌, ◌==◌, ltb, set_at,
}
use sheep_cpp.Coroutine.Condition.{ConditionVariable, make_condition, wait, notify_one_of, forget}

pub record Mutex : Type 0 where
  pub is_lock : Bool
  pub waitings : ℕ
  pub cond : ConditionVariable

-- Where a coroutine or thread stands in lock() and unlock().
pub data Pc : Type 0 where
  -- outside; in cond_.wait; back from it, before `waitings_--`; after lock() returned
  idle waiting woken holding : Pc

pub record World : Type 0 where
  pub mutex : Mutex
  pub pc : ℕ → Pc

-- The loop of lock() up to the next suspension.
unfoldable pub try_lock : Bool → ℕ → World → World
unfolding wait
try_lock is_coro p w =
    let m = w.mutex in
    if m.is_lock
    then record {
      mutex = record m { waitings = m.waitings + 1; cond = wait is_coro p m.cond };
      pc = set_at p waiting w.pc;
    }
    else record { mutex = record m { is_lock = true }; pc = set_at p holding w.pc }

-- `waitings_--`
unfoldable pub leave : ℕ → World → World
leave p w = record {
  mutex = record w.mutex { waitings = w.mutex.waitings - 1 };
  pc = set_at p idle w.pc;
}

unfoldable pub unlock : ℕ → Mutex → Mutex × List ℕ
unfolding notify_one_of
unlock k m =
    let m' = record m { is_lock = false } in
    if ltb 0 m'.waitings
    then (let (c, resumed) = notify_one_of k m'.cond in (record m' { cond = c }, resumed))
    else (m', [])

unfoldable pub wake : List ℕ → (ℕ → Pc) → ℕ → Pc
wake [] pc = pc
wake (p ∷ ps) pc = wake ps (set_at p woken pc)

-- A step of the schedule: `p` goes on, or its wait ends without a notification.
pub data Move : Type 0 where
  -- the number chooses the thread that unlock() wakes
  go : ℕ → ℕ → Move
  spurious : ℕ → Move

unfoldable pub go_at : Pc → (ℕ → Bool) → ℕ → ℕ → World → World
unfolding try_lock leave unlock wake
go_at idle is_coro p k w = try_lock (is_coro p) p w
go_at waiting is_coro p k w = w
go_at woken is_coro p k w = try_lock (is_coro p) p (leave p w)
go_at holding is_coro p k w =
    let (m, resumed) = unlock k w.mutex in
    record { mutex = m; pc = wake resumed (set_at p idle w.pc) }

-- Only a thread wakes up by itself.
unfoldable pub spurious_at : Pc → Bool → ℕ → World → World
unfolding forget
spurious_at waiting false p w = record {
  mutex = record w.mutex { cond = forget p w.mutex.cond };
  pc = set_at p woken w.pc;
}
spurious_at _ _ p w = w

unfoldable pub step : (ℕ → Bool) → Move → World → World
unfolding go_at spurious_at
step is_coro (go p k) w = go_at (w.pc p) is_coro p k w
step is_coro (spurious p) w = spurious_at (w.pc p) (is_coro p) p w

unfoldable pub run : (ℕ → Bool) → List Move → World → World
unfolding step
run is_coro [] w = w
run is_coro (m ∷ ms) w = run is_coro ms (step is_coro m w)

unfoldable pub start : World
unfolding make_condition
start = record {
  mutex = record { is_lock = false; waitings = 0; cond = make_condition };
  pc = λ p. idle;
}
