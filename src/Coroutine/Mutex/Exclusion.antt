-- ===== src/Coroutine/Mutex/Exclusion.antt =====
-- Who holds the Mutex of src/coroutine/coroutine_mutex.h, and who wakes those that wait for it.
use sheep_cpp.Base.{ℕ, ◌≡◌, ◌⊎◌, refl, inl, inr, Bool, true, false, List, [], ◌∷◌, arith}
use sheep_cpp.Coroutine.Condition.Queues.{Holds-iff, make-Holds}
use sheep_cpp.Coroutine.Mutex.{
  Pc, idle, waiting, woken, holding, World, leave, Move, go, spurious, go_at, spurious_at, step,
  run, start,
}
use sheep_cpp.Coroutine.Mutex.Counts.{CountedBy}
use sheep_cpp.Coroutine.Mutex.Invariant.{Inv, try_lock-Inv, leave-Sound, spurious-Inv, unlock-Inv}

leave_idle : (p : ℕ) (w : World) → (leave p w).pc p ≡ idle
unfolding leave
leave_idle p w = ground arith

go_at-Inv :
    (is_coro : ℕ → Bool) (c : Pc) (p k : ℕ) (w : World)
    → w.pc p ≡ c
    → Inv is_coro w
    → Inv is_coro (go_at c is_coro p k w)
unfolding go_at
go_at-Inv is_coro idle p k w e (v, h) = try_lock-Inv is_coro p w v e
go_at-Inv is_coro waiting p k w e (v, h) = (v, h)
go_at-Inv is_coro woken p k w e (v, h) =
    try_lock-Inv is_coro p (leave p w) (leave-Sound is_coro p w v e) (leave_idle p w)
go_at-Inv is_coro holding p k w e (v, h) = unlock-Inv is_coro p k w v e

spurious_at-Inv :
    (is_coro : ℕ → Bool) (c : Pc) (b : Bool) (p : ℕ) (w : World)
    → w.pc p ≡ c
    → is_coro p ≡ b
    → Inv is_coro w
    → Inv is_coro (spurious_at c b p w)
unfolding spurious_at
spurious_at-Inv is_coro waiting false p w e f v = spurious-Inv is_coro p w v e f
spurious_at-Inv is_coro waiting true p w e f v = v
spurious_at-Inv is_coro idle b p w e f v = v
spurious_at-Inv is_coro woken b p w e f v = v
spurious_at-Inv is_coro holding b p w e f v = v

step-Inv :
    (is_coro : ℕ → Bool) (m : Move) (w : World) → Inv is_coro w → Inv is_coro (step is_coro m w)
unfolding step
step-Inv is_coro (go p k) w v = go_at-Inv is_coro (w.pc p) p k w refl v
step-Inv is_coro (spurious p) w v = spurious_at-Inv is_coro (w.pc p) (is_coro p) p w refl refl v

run-Inv :
    (is_coro : ℕ → Bool) (ms : List Move) (w : World)
    → Inv is_coro w
    → Inv is_coro (run is_coro ms w)
unfolding run
run-Inv is_coro [] w v = v
run-Inv is_coro (m ∷ ms) w v = run-Inv is_coro ms (step is_coro m w) (step-Inv is_coro m w v)

start-Inv : (is_coro : ℕ → Bool) → Inv is_coro start
unfolding start
start-Inv is_coro = (
  record {
    locked = λ p o. ground arith;
    unique = λ p q o u. ground arith;
    owner = λ e. ground arith;
    queue = Holds-iff (λ p. (λ b. absurd b, λ e. ground arith)) (make-Holds is_coro);
    inside = [];
    counted = (tt, refl, λ p. (λ i. absurd i, λ e. ground arith));
  },
  λ p b. ground arith,
)

-- Mutual exclusion of Mutex, which coroutines and threads share: in the state that any schedule
-- reaches from an unlocked mutex, with any choice of whom a notification wakes and with threads
-- that wake up by themselves, two that both hold it are the same.
pub mutex_exclusion :
    (is_coro : ℕ → Bool) (schedule : List Move) (p q : ℕ)
    → (run is_coro schedule start).pc p ≡ holding
    → (run is_coro schedule start).pc q ≡ holding
    → p ≡ q
mutex_exclusion is_coro schedule p q e f =
    (run-Inv is_coro schedule start (start-Inv is_coro)).0.unique p q e f

-- No lost wake-up of Mutex: in the state that any schedule reaches from an unlocked mutex, where
-- one waits in lock(), another holds the mutex or has been woken and is yet to try again.
pub mutex_no_lost_wakeup :
    (is_coro : ℕ → Bool) (schedule : List Move) (p : ℕ)
    → let w = run is_coro schedule start in
      w.pc p ≡ waiting → ((q : ℕ) × (w.pc q ≡ holding)) ⊎ ((q : ℕ) × (w.pc q ≡ woken))
mutex_no_lost_wakeup is_coro schedule p e =
    let (v, h) = run-Inv is_coro schedule start (start-Inv is_coro) in
    elim (h p e) [ inl t ↦ inl (v.owner t) | inr u ↦ inr u ]

-- In the state that any schedule reaches from an unlocked mutex, waitings_ is the number of those
-- that wait in lock() or have been woken and are yet to try again.
waitings-Counts :
    (is_coro : ℕ → Bool) (schedule : List Move)
    → let w = run is_coro schedule start in
      (inside : List ℕ) × CountedBy w.mutex.waitings w.pc inside
waitings-Counts is_coro schedule =
    let (v, h) = run-Inv is_coro schedule start (start-Inv is_coro) in (v.inside, v.counted)
