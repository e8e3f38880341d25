-- ===== src/Coroutine/CoMutex/Exclusion.antt =====
-- Who owns the CoMutex of src/coroutine/coroutine_mutex.h, and who waits for it.
use sheep_cpp.Base.{
  ℕ, ◌≡◌, ◌≢◌, ◌⊎◌, refl, sym, ap, ◌∙◌, subst, inl, inr, true, false, List, [], ◌∷◌, ◌++◌, In, All,
  Bool-cases, arith,
}
use sheep_cpp.Coroutine.Waiters.{Waiter}
use sheep_cpp.Coroutine.CoMutex.{
  CoMutex, Pc, idle, contended, queued, woken, holding, World, set_lock, lock_slow, unlock,
  wake_pcs, waiter, step_at, step, run, start,
}
use sheep_cpp.Coroutine.CoMutex.Invariant.{
  owns, Owns, infos, IsLive, Inv, acquire-Inv, stay_out-Inv, hold-Inv, enqueue-Inv, release-Inv,
  hand_over-Inv,
}

set_lock_free :
    (m : CoMutex) → m.is_lock ≡ false → set_lock true m ≡ (record m { is_lock = true }, true)
unfolding set_lock
set_lock_free m e = ground arith

set_lock_taken : (m : CoMutex) → m.is_lock ≡ true → set_lock true m ≡ (m, false)
unfolding set_lock
set_lock_taken m e = ground arith

lock_slow_free :
    (w : Waiter) (m : CoMutex)
    → m.is_lock ≡ false
    → lock_slow w m ≡ (record m { is_lock = true }, true)
unfolding lock_slow
lock_slow_free w m e = ground arith

lock_slow_taken :
    (w : Waiter) (m : CoMutex)
    → m.is_lock ≡ true
    → lock_slow w m ≡ (record m { waiters = m.waiters ++ w ∷ [] }, false)
unfolding lock_slow
lock_slow_taken w m e = ground arith

unlock_last :
    (m : CoMutex)
    → m.is_lock ≡ true
    → m.waiters ≡ []
    → unlock m ≡ (record { is_lock = false; waiters = [] }, [])
unfolding unlock
unlock_last m e f = ground arith

unlock_next :
    (m : CoMutex) (x : Waiter) (xs : List Waiter)
    → m.waiters ≡ x ∷ xs
    → IsLive x
    → unlock m ≡ (record m { waiters = xs }, x.info ∷ [])
unfolding unlock
unlock_next m x xs f l = ground arith

pc-not_queued : {c d : Pc} → c ≡ d → d ≢ queued → c ≢ queued
pc-not_queued e n f = n (sym e ∙ f)

waiters-cases : (ws : List Waiter) → (ws ≡ []) ⊎ ((x : Waiter) × (xs : List Waiter) × (ws ≡ x ∷ xs))
waiters-cases [] = inl refl
waiters-cases (x ∷ xs) = inr (x, xs, refl)

step_at-Inv : (c : Pc) (p : ℕ) (w : World) → w.pc p ≡ c → Inv w → Inv (step_at c p w)
unfolding step_at
step_at-Inv idle p w e v = elim (Bool-cases w.mutex.is_lock) [
  | inl t ↦
      rw (set_lock_taken w.mutex t)
        (stay_out-Inv p w contended v (λ f. cc) (ground arith) (λ f. cc) refl)
  | inr t ↦ rw (set_lock_free w.mutex t) (acquire-Inv p w v (λ f. cc) t)
]
step_at-Inv contended p w e v = elim (Bool-cases w.mutex.is_lock) [
  | inl t ↦ rw (lock_slow_taken (waiter p) w.mutex t) (enqueue-Inv p w v (λ f. cc) (ground arith) t)
  | inr t ↦ rw (lock_slow_free (waiter p) w.mutex t) (acquire-Inv p w v (λ f. cc) t)
]
step_at-Inv queued p w e v = v
step_at-Inv woken p w e v = hold-Inv p w v e
step_at-Inv holding p w e v = elim (waiters-cases w.mutex.waiters) [
  | inl t ↦ rw (unlock_last w.mutex (v.locked p (ground arith)) t, wake_pcs) (release-Inv p w v e t)
  | inr (x, xs, t) ↦
      rw (unlock_next w.mutex x xs t (subst (All IsLive) t v.live).0, wake_pcs)
        (hand_over-Inv p w x xs v e t)
]

-- Every step of a coroutine in lock() or unlock() keeps the mutex sound.
pub step-Inv : (p : ℕ) (w : World) → Inv w → Inv (step p w)
unfolding step
step-Inv p w v = step_at-Inv (w.pc p) p w refl v

pub run-Inv : (ps : List ℕ) (w : World) → Inv w → Inv (run ps w)
unfolding run
run-Inv [] w v = v
run-Inv (p ∷ ps) w v = run-Inv ps (step p w) (step-Inv p w v)

start-Inv : Inv start
start-Inv = record {
  locked = λ p o. cc;
  unique = λ p q o. cc;
  owner = λ e. cc;
  in_queue = λ p e. cc;
  is_queued = λ p i. absurd i;
  distinct = tt;
  live = tt;
  waited = λ n. absurd (n refl);
}

-- Mutual exclusion of CoMutex: in the state that any schedule of the steps of lock() and unlock()
-- reaches from an unlocked mutex, two coroutines that both hold it are the same.
pub exclusion :
    (schedule : List ℕ) (p q : ℕ)
    → (run schedule start).pc p ≡ holding
    → (run schedule start).pc q ≡ holding
    → p ≡ q
exclusion schedule p q e f = (run-Inv schedule start start-Inv).unique p q (ap owns e) (ap owns f)

-- No lost wake-up: in the state that any schedule reaches from an unlocked mutex, a coroutine
-- that is suspended in lock() stands in the queue, and some coroutine holds the lock or has been
-- resumed to hold it.
pub no_lost_wakeup :
    (schedule : List ℕ) (p : ℕ)
    → (run schedule start).pc p ≡ queued
    → In p (infos (run schedule start).mutex.waiters) × ((q : ℕ) × Owns ((run schedule start).pc q))
no_lost_wakeup schedule p e =
    let v = run-Inv schedule start start-Inv in
    let i = v.in_queue p e in (i, v.owner (v.waited (λ f. subst (λ ws. In p (infos ws)) f i)))
