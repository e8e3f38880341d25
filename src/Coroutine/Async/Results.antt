-- ===== src/Coroutine/Async/Results.antt =====
-- What the futures of Async in src/coroutine/coroutine_mutex.h give.
use sheep_cpp.Base.{
  ℕ, zero, suc, ◌+◌, ◌%◌, ◌==◌, ◌≡◌, ◌≢◌, ◌⊎◌, inl, inr, refl, sym, ap, subst, ◌∙◌, Bool, true,
  false, Option, none, some, List, [], ◌∷◌, ◌++◌, length, In, In-append, All, Bool-cases, arith,
}
use sheep_cpp.Util.IntrusiveList.{front}
use sheep_cpp.Coroutine.Scheduler.{Scheduler, free_head, add_coroutine}
use sheep_cpp.Coroutine.Future.{
  Outcome, thrown, returned, not_ready, Pc, outside, waiting, woken, waited, done, World, Move, go,
  spurious, fulfil, fail, run, step, start, go_at, spurious_at, after_set, set_value, set_exception,
  wait_ready,
}
use sheep_cpp.Coroutine.Future.Delivery.{Given, answers-Given, future_answers}
use sheep_cpp.Coroutine.Async.{Async, add_at, async, settles}

abbrev pub result_of : {A E : Type 0} → A ⊎ E → Outcome A E
result_of (inl a) = returned a
result_of (inr e) = thrown e

-- Waits on the future, which do not settle it.
abbrev pub IsWait : {A E : Type 0} → Move A E → Type 0
IsWait (go p) = Unit
IsWait (spurious p) = Unit
IsWait (fulfil a) = ⊥
IsWait (fail e) = ⊥

All-In : {X : Type 0} (P : X → Type 0) (x : X) (xs : List X) → All P xs → In x xs → P x
All-In P x (y ∷ ys) h (inl e) = subst P (sym e) h.0
All-In P x (y ∷ ys) h (inr i) = All-In P x ys h.1 i
All-In P x [] h i = absurd i

unsettled : {A E : Type 0} (ms : List (Move A E)) (o : Outcome A E) → All IsWait ms → ¬ Given ms o
unfolding Given
unsettled ms not_ready h g = g
unsettled ms (thrown e) h g = All-In IsWait (fail e) ms h g
unsettled ms (returned a) h g = All-In IsWait (fulfil a) ms h g

thrown_of :
    {A E : Type 0} (e : E) (r : A ⊎ E)
    → fail e ≡ settles r
    → ◌≡◌ {A = Outcome A E} (thrown e) (result_of r)
unfolding settles
thrown_of e (inl a) q = absurd (ground (arith, q))
thrown_of e (inr d) q = cc

returned_of :
    {A E : Type 0} (a : A) (r : A ⊎ E)
    → fulfil a ≡ settles r
    → ◌≡◌ {A = Outcome A E} (returned a) (result_of r)
unfolding settles
returned_of a (inl b) q = cc
returned_of a (inr d) q = absurd (ground (arith, q))

-- Of what was given among waits, there is only the result.
settled :
    {A E : Type 0} (before after : List (Move A E)) (r : A ⊎ E) (o : Outcome A E)
    → All IsWait before
    → All IsWait after
    → Given (before ++ settles r ∷ after) o
    → o ≡ result_of r
unfolding Given settles
settled before after r not_ready h k g = absurd g
settled before after r (thrown e) h k g =
    elim ((In-append (fail e) before (settles r ∷ after)).0 g) [
      | inl i ↦ absurd (All-In IsWait (fail e) before h i)
      | inr j ↦ elim j [
        | inl q ↦ thrown_of e r q
        | inr i ↦ absurd (All-In IsWait (fail e) after k i)
      ]
    ]
settled before after r (returned a) h k g =
    elim ((In-append (fulfil a) before (settles r ∷ after)).0 g) [
      | inl i ↦ absurd (All-In IsWait (fulfil a) before h i)
      | inr j ↦ elim j [
        | inl q ↦ returned_of a r q
        | inr i ↦ absurd (All-In IsWait (fulfil a) after k i)
      ]
    ]

module _ {A E : Type 0} (is_coro : ℕ → Bool) where
  is_ready-wait_ready :
      (b : Bool) (p : ℕ) (w : World A E) → (wait_ready b p w).state.is_ready ≡ w.state.is_ready
  unfolding wait_ready
  is_ready-wait_ready b p w = ground (arith, Bool-cases w.state.is_ready)

  is_ready-go_at :
      (c : Pc A E) (b : Bool) (p : ℕ) (w : World A E)
      → (go_at c b p w).state.is_ready ≡ w.state.is_ready
  unfolding go_at
  is_ready-go_at outside b p w = is_ready-wait_ready b p w
  is_ready-go_at waiting b p w = refl
  is_ready-go_at woken b p w = is_ready-wait_ready b p w
  is_ready-go_at waited b p w = refl
  is_ready-go_at (done o) b p w = refl

  is_ready-spurious_at :
      (c : Pc A E) (b : Bool) (p : ℕ) (w : World A E)
      → (spurious_at c b p w).state.is_ready ≡ w.state.is_ready
  unfolding spurious_at
  is_ready-spurious_at waiting false p w = refl
  is_ready-spurious_at waiting true p w = refl
  is_ready-spurious_at outside b p w = refl
  is_ready-spurious_at woken b p w = refl
  is_ready-spurious_at waited b p w = refl
  is_ready-spurious_at (done o) b p w = refl

  is_ready-waits :
      (ms : List (Move A E)) (w : World A E)
      → All IsWait ms
      → (run is_coro ms w).state.is_ready ≡ w.state.is_ready
  unfolding run step
  is_ready-waits [] w h = refl
  is_ready-waits (go p ∷ ms) w h =
      is_ready-waits ms (step is_coro (go p) w) h.1 ∙ is_ready-go_at (w.pc p) (is_coro p) p w
  is_ready-waits (spurious p ∷ ms) w h =
      is_ready-waits ms (step is_coro (spurious p) w) h.1
      ∙ is_ready-spurious_at (w.pc p) (is_coro p) p w
  is_ready-waits (fulfil a ∷ ms) w h = absurd h.0
  is_ready-waits (fail e ∷ ms) w h = absurd h.0

  is_ready-settles :
      (r : A ⊎ E) (w : World A E) → (step is_coro (settles r) w).state.is_ready ≡ true
  unfolding step settles after_set set_value set_exception
  is_ready-settles (inl a) w = refl
  is_ready-settles (inr e) w = refl

  is_ready-settled :
      (before after : List (Move A E)) (r : A ⊎ E) (w : World A E)
      → All IsWait after
      → (run is_coro (before ++ settles r ∷ after) w).state.is_ready ≡ true
  unfolding run
  is_ready-settled [] after r w k =
      is_ready-waits after (step is_coro (settles r) w) k ∙ is_ready-settles r w
  is_ready-settled (m ∷ ms) after r w k = is_ready-settled ms after r (step is_coro m w) k

  -- Where f has run and its coroutine settles the promise, among any waits on the future of
  -- async: whoever waits on it, or goes on to do so, is back after two steps, with the value
  -- that f returned or the exception that it threw.
  pub async_answers :
      (init : A) (before after : List (Move A E)) (r : A ⊎ E) (p : ℕ)
      → All IsWait before
      → All IsWait after
      → (run is_coro (go p ∷ go p ∷ []) (run is_coro (before ++ settles r ∷ after) (start init))).pc
          p
        ≡ done (result_of r)
  async_answers init before after r p h k =
      let (o, e, g) =
        future_answers is_coro init (before ++ settles r ∷ after) p
          (is_ready-settled before after r (start init) k) in
      e ∙ ap (λ z. done z) (settled before after r o h k g)

abbrev pub nth : ℕ → List Scheduler → Option Scheduler
nth i [] = none
nth zero (s ∷ ss) = some s
nth (suc i) (s ∷ ss) = nth i ss

add_coroutine_full :
    (func : ℕ) (s : Scheduler)
    → front (free_head s.coro_num) s.mem ≡ none
    → add_coroutine func s ≡ some (s, false)
unfolding add_coroutine
add_coroutine_full func s f = rw (add_coroutine, f) refl

add_at-full :
    (func i : ℕ) (ss : List Scheduler) (s : Scheduler)
    → nth i ss ≡ some s
    → front (free_head s.coro_num) s.mem ≡ none
    → (ts : List Scheduler) × (add_at func i ss ≡ some (ts, false))
unfolding add_at
add_at-full func i [] s n f = absurd (ground (arith, n))
add_at-full func zero (t ∷ ss) s n f =
    let e : t ≡ s = ground (arith, n) in
    let g = ap (λ z. front (free_head z.coro_num) z.mem) e ∙ f in
    (t ∷ ss, rw (add_coroutine_full func t g) refl)
add_at-full func (suc i) (t ∷ ss) s n f =
    let (ts, e) = add_at-full func i ss s n f in (t ∷ ts, rw e refl)

some_scheduler :
    (i : ℕ) (ss : List Scheduler) (s : Scheduler) → nth i ss ≡ some s → (length ss == 0) ≡ false
some_scheduler i [] s n = absurd (ground (arith, n))
some_scheduler i (t ∷ ss) s n = ground arith

-- Where the scheduler whose turn it is has no coroutine free: async returns a future all the
-- same, although addCoroutine returned false, and whatever waits on this future, no wait ever
-- ends.
async_full :
    {A E : Type 0} (is_coro : ℕ → Bool) (init : A) (func : ℕ) (a : Async) (s : Scheduler)
    (waits : List (Move A E))
    → nth (a.index % length a.schedulers) a.schedulers ≡ some s
    → front (free_head s.coro_num) s.mem ≡ none
    → All IsWait waits
    → ((b : Async) × (async func a ≡ some (b, false)))
      × ((p : ℕ) (o : Outcome A E) → (run is_coro waits (start init)).pc p ≢ done o)
unfolding async
async_full is_coro init func a s waits n f h =
    let (ts, e) = add_at-full func (a.index % length a.schedulers) a.schedulers s n f in
    (
      (
        record { schedulers = ts; index = a.index + 1 },
        let z = some_scheduler (a.index % length a.schedulers) a.schedulers s n in rw (z, e) refl,
      ),
      λ p o q. unsettled waits o h (answers-Given is_coro init waits p o q),
    )
