-- ===== src/Coroutine/Tests.antt =====
-- The theorems on src/coroutine/coroutine_mutex.h at concrete inputs.
use sheep_cpp.Base.{ℕ, ◌≡◌, ◌⊎◌, ◌==◌, inl, refl, Bool, true, false, List, [], ◌∷◌, In}
use sheep_cpp.Coroutine.Mutex
use sheep_cpp.Coroutine.Mutex.Exclusion.{mutex_exclusion, mutex_no_lost_wakeup}
use sheep_cpp.Coroutine.Future
use sheep_cpp.Coroutine.Future.{Outcome, returned}
use sheep_cpp.Coroutine.Future.Delivery.{Given, future_answers}
use sheep_cpp.Coroutine.Async.{settles}
use sheep_cpp.Coroutine.Async.Results.{async_answers}
use sheep_cpp.Coroutine.Waiters.{Waiter}
use sheep_cpp.Coroutine.CoMutex.{queued, holding, run, start}
use sheep_cpp.Coroutine.CoMutex.Invariant.{infos, Owns}
use sheep_cpp.Coroutine.CoMutex.Exclusion.{exclusion, no_lost_wakeup}

-- Coroutine 0 locks; 1 tries twice and is suspended.
abbrev contention : List ℕ
contention = 0 ∷ 1 ∷ 1 ∷ []

-- Then 0 unlocks, and 1 returns from lock().
abbrev hand_over : List ℕ
hand_over = 0 ∷ 1 ∷ 1 ∷ 0 ∷ 1 ∷ []

suspended_1 : (run contention start).pc 1 ≡ queued
unfolding run
suspended_1 = refl

locked_1 : (run hand_over start).pc 1 ≡ holding
unfolding run
locked_1 = refl

exclusion_example : ◌≡◌ {A = ℕ} 1 1
exclusion_example = exclusion hand_over 1 1 locked_1 locked_1

no_lost_wakeup_example :
    In 1 (infos (run contention start).mutex.waiters)
    × ((q : ℕ) × Owns ((run contention start).pc q))
no_lost_wakeup_example = no_lost_wakeup contention 1 suspended_1

-- The first was canceled.
abbrev three_waiters : List Waiter
three_waiters =
    record { sched = true; info = 4; is_canceled = true }
    ∷ record { sched = true; info = 5; is_canceled = false }
    ∷ record { sched = true; info = 6; is_canceled = false }
    ∷ []

-- Coroutine 0 and thread 1.
abbrev one_coroutine : ℕ → Bool
one_coroutine p = p == 0

-- 0 locks, and 1 waits.
abbrev mutex_contention : List Mutex.Move
mutex_contention = Mutex.go 0 0 ∷ Mutex.go 1 0 ∷ []

-- Then 0 unlocks, and 1 locks.
abbrev mutex_hand_over : List Mutex.Move
mutex_hand_over = Mutex.go 0 0 ∷ Mutex.go 1 0 ∷ Mutex.go 0 0 ∷ Mutex.go 1 0 ∷ []

mutex_exclusion_example : ◌≡◌ {A = ℕ} 1 1
unfolding Mutex.run Mutex.start
mutex_exclusion_example = mutex_exclusion one_coroutine mutex_hand_over 1 1 refl refl

mutex_no_lost_wakeup_example :
    let w = Mutex.run one_coroutine mutex_contention Mutex.start in
    ((q : ℕ) × (w.pc q ≡ Mutex.holding)) ⊎ ((q : ℕ) × (w.pc q ≡ Mutex.woken))
unfolding Mutex.run Mutex.start
mutex_no_lost_wakeup_example = mutex_no_lost_wakeup one_coroutine mutex_contention 1 refl

-- Thread 3 waits, and the promise is set to 7.
abbrev set_after_wait : List (Future.Move ℕ ℕ)
set_after_wait = Future.go 3 ∷ Future.fulfil 7 ∷ []

future_answers_example :
    let w = Future.run one_coroutine set_after_wait (Future.start 0) in
    (o : Outcome ℕ ℕ) × ((Future.run one_coroutine (Future.go 3 ∷ Future.go 3 ∷ []) w).pc 3
      ≡ Future.done o)
    × Given set_after_wait o
unfolding Future.run Future.start
future_answers_example = future_answers one_coroutine 0 set_after_wait 3 refl

abbrev set_and_taken : List (Future.Move ℕ ℕ)
set_and_taken = Future.go 3 ∷ Future.fulfil 7 ∷ Future.go 3 ∷ Future.go 3 ∷ []

abbrev two_waits : List (Future.Move ℕ ℕ)
two_waits = Future.go 3 ∷ Future.go 3 ∷ []

abbrev around_7 : List (Future.Move ℕ ℕ)
around_7 = Future.go 3 ∷ Future.fulfil 7 ∷ Future.go 3 ∷ []

-- The coroutine 3 waits before and after f has returned 7.
async_answers_example :
    (Future.run one_coroutine two_waits (Future.run one_coroutine around_7 (Future.start 0))).pc 3
    ≡ Future.done (returned 7)
unfolding settles
async_answers_example =
    async_answers one_coroutine 0 (Future.go 3 ∷ []) (Future.go 3 ∷ []) (inl 7) 3 (tt, tt) (tt, tt)
