-- ===== src/Coroutine/Future/Delivery.antt =====
-- What the Futures of src/coroutine/coroutine_mutex.h give to those that wait.
use sheep_cpp.Base.{
  ℕ, ◌≡◌, ◌≢◌, refl, inl, inr, Bool, true, false, List, [], ◌∷◌, In, Option-cases, arith,
}
use sheep_cpp.Coroutine.Condition.Queues.{Holds-iff, make-Holds}
use sheep_cpp.Coroutine.Condition.Wakeups.{notify_everyone-WakesAll}
use sheep_cpp.Coroutine.Future.{
  Outcome, not_ready, thrown, returned, Pc, outside, waiting, woken, waited, done, World,
  set_exception, set_value, get_value, wait_ready, Move, go, spurious, fulfil, fail, go_at,
  spurious_at, step, run, start,
}
use sheep_cpp.Coroutine.Future.Invariant.{Inv, wait_ready-Inv, get-Inv, spurious-Inv, after_set-Inv}

-- The outcomes that the schedule gives to the promise.
unfoldable pub Given : {A E : Type 0} → List (Move A E) → Outcome A E → Type 0
Given ms not_ready = ⊥
Given ms (thrown e) = In (fail e) ms
Given ms (returned a) = In (fulfil a) ms

module _ {A E : Type 0} (is_coro : ℕ → Bool) (all : List (Move A E)) where
  go_at-Inv :
      (c : Pc A E) (p : ℕ) (w : World A E)
      → w.pc p ≡ c
      → Inv is_coro (Given all) w
      → Inv is_coro (Given all) (go_at c (is_coro p) p w)
  unfolding go_at
  go_at-Inv outside p w e v = wait_ready-Inv is_coro (Given all) p w v (inl e)
  go_at-Inv waiting p w e v = v
  go_at-Inv woken p w e v = wait_ready-Inv is_coro (Given all) p w v (inr e)
  go_at-Inv waited p w e v = get-Inv is_coro (Given all) p w v e
  go_at-Inv (done o) p w e v = v

  spurious_at-Inv :
      (c : Pc A E) (b : Bool) (p : ℕ) (w : World A E)
      → w.pc p ≡ c
      → is_coro p ≡ b
      → Inv is_coro (Given all) w
      → Inv is_coro (Given all) (spurious_at c b p w)
  unfolding spurious_at
  spurious_at-Inv waiting false p w e f v = spurious-Inv is_coro (Given all) p w v e f
  spurious_at-Inv waiting true p w e f v = v
  spurious_at-Inv outside b p w e f v = v
  spurious_at-Inv woken b p w e f v = v
  spurious_at-Inv waited b p w e f v = v
  spurious_at-Inv (done o) b p w e f v = v

  step-Inv :
      (m : Move A E) (w : World A E)
      → In m all
      → Inv is_coro (Given all) w
      → Inv is_coro (Given all) (step is_coro m w)
  unfolding step set_value set_exception get_value Given
  step-Inv (go p) w i v = go_at-Inv (w.pc p) p w refl v
  step-Inv (spurious p) w i v = spurious_at-Inv (w.pc p) (is_coro p) p w refl refl v
  step-Inv (fulfil a) w i v =
      after_set-Inv is_coro (Given all) w (set_value a w.state).0 (set_value a w.state).1 v refl
        (notify_everyone-WakesAll v.queue)
        (elim (Option-cases w.state.eptr) [ inl e ↦ rw e i | inr (x, e) ↦ rw e (v.failed x e) ])
        v.failed
  step-Inv (fail e) w i v =
      after_set-Inv is_coro (Given all) w (set_exception e w.state).0 (set_exception e w.state).1 v
        refl (notify_everyone-WakesAll v.queue) i (λ x q. ground arith)

  run-Inv :
      (ms : List (Move A E)) (w : World A E)
      → ((m : Move A E) → In m ms → In m all)
      → Inv is_coro (Given all) w
      → Inv is_coro (Given all) (run is_coro ms w)
  unfolding run
  run-Inv [] w h v = v
  run-Inv (m ∷ ms) w h v =
      run-Inv ms (step is_coro m w) (λ x i. h x (inr i)) (step-Inv m w (h m (inl refl)) v)

start-Inv :
    {A E : Type 0} (is_coro : ℕ → Bool) (init : A) (all : List (Move A E))
    → Inv is_coro (Given all) (start init)
unfolding start get_value
start-Inv is_coro init all = record {
  queue = Holds-iff (λ p. (λ b. absurd b, λ e. ground arith)) (make-Holds is_coro);
  awake = λ e p b. ground arith;
  ready = λ p b. ground arith;
  answer = λ e. ground arith;
  failed = λ e b. ground arith;
  answers = λ p o b. ground arith;
}

reached :
    {A E : Type 0} (is_coro : ℕ → Bool) (init : A) (schedule : List (Move A E))
    → Inv is_coro (Given schedule) (run is_coro schedule (start init))
reached is_coro init schedule =
    run-Inv is_coro schedule schedule (start init) (λ m i. i) (start-Inv is_coro init schedule)

-- Whatever the schedule: the end of a Future::wait is a value or an exception that the promise
-- was given, and never the error that getValue was called too early.
pub answers-Given :
    {A E : Type 0} (is_coro : ℕ → Bool) (init : A) (schedule : List (Move A E)) (p : ℕ)
    (o : Outcome A E)
    → (run is_coro schedule (start init)).pc p ≡ done o
    → Given schedule o
answers-Given is_coro init schedule p o e = (reached is_coro init schedule).answers p o e

-- When the promise was set, nobody waits.
future_no_lost_wakeup :
    {A E : Type 0} (is_coro : ℕ → Bool) (init : A) (schedule : List (Move A E)) (p : ℕ)
    → let w = run is_coro schedule (start init) in w.state.is_ready ≡ true → w.pc p ≢ waiting
future_no_lost_wakeup is_coro init schedule p e = (reached is_coro init schedule).awake e p

-- Two steps from a promise that is set.
two_gos :
    {A E : Type 0} (is_coro : ℕ → Bool) (c : Pc A E) (p : ℕ) (w : World A E)
    → w.pc p ≡ c
    → c ≢ waiting
    → w.state.is_ready ≡ true
    → (o : Outcome A E) × ((run is_coro (go p ∷ go p ∷ []) w).pc p ≡ done o)
unfolding run step go_at wait_ready get_value
two_gos is_coro outside p w e n t = (get_value w.state, ground (arith, e, t))
two_gos is_coro waiting p w e n t = absurd (n refl)
two_gos is_coro woken p w e n t = (get_value w.state, ground (arith, e, t))
two_gos is_coro waited p w e n t = (get_value w.state, ground (arith, e, t))
two_gos is_coro (done o) p w e n t = (o, ground (arith, e, t))

-- In the state that any schedule of waits and of calls of the promise reaches, once the promise
-- is set: whoever calls or goes on in Future::wait has an answer after two steps, and it is a
-- value or an exception that the promise was given.
pub future_answers :
    {A E : Type 0} (is_coro : ℕ → Bool) (init : A) (schedule : List (Move A E)) (p : ℕ)
    → let w = run is_coro schedule (start init) in
      w.state.is_ready ≡ true
      → (o : Outcome A E) × ((run is_coro (go p ∷ go p ∷ []) w).pc p ≡ done o) × Given schedule o
unfolding run step
future_answers is_coro init schedule p t =
    let w = run is_coro schedule (start init) in
    let v = reached is_coro init schedule in
    let (o, e) = two_gos is_coro (w.pc p) p w refl (v.awake t p) t in
    let v1 = go_at-Inv is_coro schedule (w.pc p) p w refl v in
    let w1 = step is_coro (go p) w in
    let v2 = go_at-Inv is_coro schedule (w1.pc p) p w1 refl v1 in (o, e, v2.answers p o e)
