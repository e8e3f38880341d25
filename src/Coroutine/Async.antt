-- ===== src/Coroutine/Async.antt =====
-- Async of src/coroutine/coroutine_mutex.h: functions run as coroutines of several schedulers, each
-- with a promise for its result.
pub mod Results
use sheep_cpp.Base.{
  ℕ, zero, suc, ◌+◌, ◌%◌, ◌==◌, ◌⊎◌, inl, inr, Bool, true, false, Option, none, some, List, [], ◌∷◌,
  if◌then◌else◌, length,
}
use sheep_cpp.Coroutine.Scheduler.{Scheduler, ◌>>=◌, add_coroutine}
use sheep_cpp.Coroutine.Future.{Move, fulfil, fail}

-- The schedulers, and the static counter of getIndex.
pub record Async : Type 0 where
  pub schedulers : List Scheduler
  pub index : ℕ

-- The scheduler at an index, replaced by what addCoroutine makes of it, with what it returns.
unfoldable pub add_at : ℕ → ℕ → List Scheduler → Option (List Scheduler × Bool)
unfolding add_coroutine
add_at func i [] = none
add_at func zero (s ∷ ss) = do (s1, added) ← add_coroutine func s; some (s1 ∷ ss, added)
add_at func (suc i) (s ∷ ss) = do (ts, added) ← add_at func i ss; some (s ∷ ts, added)

-- async up to the future that it returns, whose promise is a new one; that addCoroutine returned
-- false goes unseen. `none`: there is no scheduler.
unfoldable pub async : ℕ → Async → Option (Async × Bool)
unfolding add_at
async func a = if length a.schedulers == 0 then none else (do
  (ss, added) ← add_at func (a.index % length a.schedulers) a.schedulers
  some (record { schedulers = ss; index = a.index + 1 }, added))

-- What the coroutine does with the promise where f returns a value or throws.
unfoldable pub settles : {A E : Type 0} → A ⊎ E → Move A E
settles (inl a) = fulfil a
settles (inr e) = fail e
