-- ===== src/Coroutine/Future/Invariant.antt =====
-- The invariant of the SharedState of src/coroutine/coroutine_mutex.h, and the changes that a step makes.
use sheep_cpp.Base.{
  ℕ, ◌≡◌, ◌≢◌, ◌⊎◌, refl, sym, ◌∙◌, same_or_not, subst, inl, inr, Bool, true, false, some, List, [],
  ◌∷◌, In, Bool-cases, set_at, arith,
}
use sheep_cpp.Coroutine.Condition.{wait, forget}
use sheep_cpp.Coroutine.Condition.Queues.{Holds, Holds-iff, wait-Holds, forget-Holds}
use sheep_cpp.Coroutine.Condition.Wakeups.{WakesAll}
use sheep_cpp.Coroutine.Future.{
  Outcome, thrown, SharedState, Pc, outside, waiting, woken, waited, done, World, get_value,
  wait_ready, wake, after_set,
}

-- What the promise was given is `given`.
module _ {A E : Type 0} (is_coro : ℕ → Bool) (given : Outcome A E → Type 0) where
  pub record Inv (w : World A E) : Type 0 where
    pub queue : Holds is_coro w.state.cond (λ p. w.pc p ≡ waiting)
    -- Nobody is left to wait.
    pub awake : w.state.is_ready ≡ true → (p : ℕ) → w.pc p ≢ waiting
    -- A wait ends when there is an answer.
    pub ready : (p : ℕ) → w.pc p ≡ waited → w.state.is_ready ≡ true
    pub answer : w.state.is_ready ≡ true → given (get_value w.state)
    pub failed : (e : E) → w.state.eptr ≡ some e → given (thrown e)
    pub answers : (p : ℕ) (o : Outcome A E) → w.pc p ≡ done o → given o

wake_cases :
    {A E : Type 0} (ps : List ℕ) (pc : ℕ → Pc A E) (q : ℕ)
    → (In q ps × (wake ps pc q ≡ woken)) ⊎ ((¬ In q ps) × (wake ps pc q ≡ pc q))
unfolding wake
wake_cases [] pc q = inr (λ i. i, refl)
wake_cases (p ∷ ps) pc q = elim (wake_cases ps (set_at p woken pc) q) [
  | inl (i, e) ↦ inl (inr i, e)
  | inr (n, e) ↦ elim (same_or_not q p) [
    | inl f ↦ inl (inl f, ground (arith, e, f))
    | inr f ↦ inr (λ i. elim i [ inl g ↦ f g | inr j ↦ n j ], ground (arith, e, f))
  ]
]

wait_ready_set :
    {A E : Type 0} (b : Bool) (p : ℕ) (w : World A E)
    → w.state.is_ready ≡ true
    → wait_ready b p w ≡ record w { pc = set_at p waited w.pc }
unfolding wait_ready
wait_ready_set b p w t = rw (wait_ready, t) refl

wait_ready_unset :
    {A E : Type 0} (b : Bool) (p : ℕ) (w : World A E)
    → w.state.is_ready ≡ false
    → wait_ready b p w ≡ record {
      state = record w.state { cond = wait b p w.state.cond };
      pc = set_at p waiting w.pc;
    }
unfolding wait_ready
wait_ready_unset b p w t = rw (wait_ready, t) refl

module _ {A E : Type 0} (is_coro : ℕ → Bool) (given : Outcome A E → Type 0) where
  -- From outside, and after a notification.
  pub wait_ready-Inv :
      (p : ℕ) (w : World A E)
      → Inv is_coro given w
      → (w.pc p ≡ outside) ⊎ (w.pc p ≡ woken)
      → Inv is_coro given (wait_ready (is_coro p) p w)
  unfolding get_value
  wait_ready-Inv p w v h = elim (Bool-cases w.state.is_ready) [
    | inl t ↦ rw (wait_ready_set (is_coro p) p w t) (record {
      queue = Holds-iff (λ q. (λ b. ground arith, λ b. ground arith)) v.queue;
      awake = λ _ q b. v.awake t q (ground arith);
      ready = λ q b. t;
      answer = v.answer;
      failed = v.failed;
      answers = λ q o b. v.answers q o (ground arith);
    })
    | inr t ↦ rw (wait_ready_unset (is_coro p) p w t) (record {
      queue =
          Holds-iff
            (λ q. (
              λ i. elim i [ inl a ↦ ground arith | inr b ↦ ground arith ],
              λ b. elim (same_or_not q p) [ inl a ↦ inl a | inr a ↦ inr (ground arith) ],
            ))
            (wait-Holds v.queue p (λ b. ground arith));
      awake = λ u q b. ground arith;
      ready = λ q b. ground (arith, v.ready q);
      answer = λ u. ground arith;
      failed = v.failed;
      answers = λ q o b. v.answers q o (ground arith);
    })
  ]

  pub get-Inv :
      (p : ℕ) (w : World A E)
      → Inv is_coro given w
      → w.pc p ≡ waited
      → Inv is_coro given (record w { pc = set_at p (done (get_value w.state)) w.pc })
  get-Inv p w v e = record {
    queue = Holds-iff (λ q. (λ b. ground arith, λ b. ground arith)) v.queue;
    awake = λ t q b. v.awake t q (ground arith);
    ready = λ q b. v.ready q (ground arith);
    answer = v.answer;
    failed = v.failed;
    answers = λ q o b. elim (same_or_not q p) [
      | inl a ↦ subst given (ground arith) (v.answer (v.ready p e))
      | inr a ↦ v.answers q o (ground arith)
    ];
  }

  pub spurious-Inv :
      (p : ℕ) (w : World A E)
      → Inv is_coro given w
      → w.pc p ≡ waiting
      → is_coro p ≡ false
      → Inv is_coro given (record {
        state = record w.state { cond = forget p w.state.cond };
        pc = set_at p woken w.pc;
      })
  unfolding get_value
  spurious-Inv p w v e f = record {
    queue =
        Holds-iff (λ q. (λ (b, n). ground arith, λ b. (ground arith, λ a. ground arith)))
          (forget-Holds v.queue p f);
    awake = λ t q b. v.awake t q (ground arith);
    ready = λ q b. v.ready q (ground arith);
    answer = v.answer;
    failed = v.failed;
    answers = λ q o b. v.answers q o (ground arith);
  }

  -- A promise that is set wakes all that wait.
  pub after_set-Inv :
      (w : World A E) (s : SharedState A E) (ps : List ℕ)
      → Inv is_coro given w
      → s.is_ready ≡ true
      → WakesAll is_coro (λ p. w.pc p ≡ waiting) (s.cond, ps)
      → given (get_value s)
      → ((e : E) → s.eptr ≡ some e → given (thrown e))
      → Inv is_coro given (after_set (s, ps) w)
  unfolding after_set
  after_set-Inv w s ps v t (all, q) g f =
      let no : (p : ℕ) → wake ps w.pc p ≢ waiting = λ p b. elim (wake_cases ps w.pc p) [
        | inl (i, e) ↦ ground arith
        | inr (n, e) ↦ n ((all p).1 (sym e ∙ b))
      ] in
      record {
        queue = Holds-iff (λ p. (λ b. absurd b, λ b. no p b)) q;
        awake = λ _. no;
        ready = λ p b. t;
        answer = λ _. g;
        failed = f;
        answers = λ p o b. elim (wake_cases ps w.pc p) [
          | inl (i, e) ↦ ground arith
          | inr (n, e) ↦ v.answers p o (sym e ∙ b)
        ];
      }
