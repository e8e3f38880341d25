-- ===== src/Coroutine/Condition.antt =====
-- ConditionVariable of src/coroutine/coroutine_mutex.h: the coroutines that wait are queued, and the
-- threads wait on a std::condition_variable. Which of its threads that one wakes is open, so notify_one
-- takes a number that chooses.
pub mod Queues
pub mod Wakeups
use sheep_cpp.Base.{
  ℕ, Bool, true, false, Option, none, some, List, [], ◌∷◌, ◌++◌, if◌then◌else◌, ◌==◌, take_one,
  without,
}
use sheep_cpp.Coroutine.Waiters.{
  Waiter, Wait, throws, suspended, sleeping, wait_start, Notified, cv_wait, notify_one, notify_all,
}

pub record ConditionVariable : Type 0 where
  -- coCv_
  pub waiters : List Waiter
  -- the threads that wait on cv_
  pub sleepers : List ℕ

unfoldable pub make_condition : ConditionVariable
make_condition = record { waiters = []; sleepers = [] }

-- The waiter that a coroutine makes of itself.
abbrev pub waiter_of : ℕ → Waiter
waiter_of p = record { sched = true; info = p; is_canceled = false }

-- wait, up to the suspension; `is_coro` tells whether `p` has a scheduler.
unfoldable pub wait : Bool → ℕ → ConditionVariable → ConditionVariable
unfolding cv_wait
wait is_coro p c =
    if is_coro
    then record c { waiters = cv_wait (waiter_of p) c.waiters }
    else record c { sleepers = p ∷ c.sleepers }

-- cv_.notify_one()
unfoldable pub notify_thread : ℕ → ConditionVariable → ConditionVariable × List ℕ
unfolding take_one
notify_thread k c = elim (take_one k c.sleepers) [
  | none ↦ (c, [])
  | some (p, rest) ↦ (record c { sleepers = rest }, p ∷ [])
]

-- Whom notify_one and notify_all wake stands beside what is left.
unfoldable pub notify_one_of : ℕ → ConditionVariable → ConditionVariable × List ℕ
unfolding notify_one notify_thread
notify_one_of k c =
    let r = notify_one c.waiters in
    let c' = record c { waiters = r.left } in
    if r.count == 0 then notify_thread k c' else (c', r.resumed)

unfoldable pub notify_everyone : ConditionVariable → ConditionVariable × List ℕ
unfolding notify_all
notify_everyone c =
    let r = notify_all c.waiters in
    (record { waiters = r.left; sleepers = [] }, r.resumed ++ c.sleepers)

-- A thread that wakes up without a notification, as a std::condition_variable allows.
unfoldable pub forget : ℕ → ConditionVariable → ConditionVariable
forget p c = record c { sleepers = without p c.sleepers }
