-- ===== src/Coroutine/CoMutex.antt =====
-- CoMutex of src/coroutine/coroutine_mutex.h. A section under `mtx_` is one step; the coroutines that
-- call lock() and unlock() take their steps in the order of a schedule.
pub mod Invariant
pub mod Exclusion
use sheep_cpp.Base.{
  ℕ, zero, suc, ◌+◌, ◌≡◌, Bool, true, false, not, Option, none, some, List, [], ◌∷◌, ◌++◌,
  if◌then◌else◌, ◌==◌,
}
use sheep_cpp.Coroutine.Waiters.{Waiter, Notified, notify_nolock}

pub record CoMutex : Type 0 where
  pub is_lock : Bool
  pub waiters : List Waiter

unfoldable pub eq_bool : Bool → Bool → Bool
eq_bool true b = b
eq_bool false b = not b

-- compare_exchange_strong from !newV to newV
unfoldable pub set_lock : Bool → CoMutex → CoMutex × Bool
unfolding eq_bool
set_lock new m =
    if eq_bool m.is_lock (not new) then (record m { is_lock = new }, true) else (m, false)

-- The second part of lock(), under `mtx_`: one more try, else the waiter is queued.
unfoldable pub lock_slow : Waiter → CoMutex → CoMutex × Bool
unfolding set_lock
lock_slow w m =
    let (m', ok) = set_lock true m in
    if ok then (m', true) else (record m' { waiters = m'.waiters ++ w ∷ [] }, false)

-- unlock(): the coroutines that it resumes come back beside the mutex.
unfoldable pub unlock : CoMutex → CoMutex × List ℕ
unfolding set_lock notify_nolock
unlock m =
    let r = notify_nolock false m.waiters in
    let m' = record m { waiters = r.left } in
    if r.count == 0 then ((set_lock false m').0, r.resumed) else (m', r.resumed)

-- Where a coroutine stands in lock() and unlock().
pub data Pc : Type 0 where
  -- outside; after the first failed try; suspended in the queue; resumed; after lock() returned
  idle contended queued woken holding : Pc

pub record World : Type 0 where
  pub mutex : CoMutex
  pub pc : ℕ → Pc

unfoldable pub set_pc : ℕ → Pc → (ℕ → Pc) → ℕ → Pc
set_pc p c pc j = if j == p then c else pc j

unfoldable pub wake_pcs : List ℕ → (ℕ → Pc) → ℕ → Pc
unfolding set_pc
wake_pcs [] pc = pc
wake_pcs (c ∷ cs) pc = wake_pcs cs (set_pc c woken pc)

-- The waiter that a coroutine makes of itself.
abbrev pub waiter : ℕ → Waiter
waiter p = record { sched = true; info = p; is_canceled = false }

abbrev pub pc_after : Bool → Pc → Pc
pc_after ok other = if ok then holding else other

unfoldable pub step_at : Pc → ℕ → World → World
unfolding set_lock lock_slow unlock set_pc wake_pcs
step_at idle p w =
    let (m, ok) = set_lock true w.mutex in
    record { mutex = m; pc = set_pc p (pc_after ok contended) w.pc }
step_at contended p w =
    let (m, ok) = lock_slow (waiter p) w.mutex in
    record { mutex = m; pc = set_pc p (pc_after ok queued) w.pc }
step_at queued p w = w
step_at woken p w = record w { pc = set_pc p holding w.pc }
step_at holding p w =
    let (m, resumed) = unlock w.mutex in
    record { mutex = m; pc = wake_pcs resumed (set_pc p idle w.pc) }

-- The next step of coroutine `p`; a suspended coroutine has none.
unfoldable pub step : ℕ → World → World
unfolding step_at
step p w = step_at (w.pc p) p w

unfoldable pub run : List ℕ → World → World
unfolding step
run [] w = w
run (p ∷ ps) w = run ps (step p w)

abbrev pub start : World
start = record { mutex = record { is_lock = false; waiters = [] }; pc = λ p. idle }
