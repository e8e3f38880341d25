-- ===== src/Coroutine/Condition/Queues.antt =====
-- Who waits on a ConditionVariable of src/coroutine/coroutine_mutex.h.
use sheep_cpp.Base.{
  ℕ, ◌≡◌, ◌≢◌, ◌⊎◌, ◌↔◌, refl, sym, ap, ◌∙◌, subst, inl, inr, Bool, true, false, List, [], ◌∷◌,
  ◌++◌, In, In-ne, In-append, Distinct, Distinct-snoc, All, All-append, map, Bool-cases, arith,
  without, In-without, Distinct-without,
}
use sheep_cpp.Coroutine.Waiters.{Waiter, cv_wait}
use sheep_cpp.Coroutine.Condition.{ConditionVariable, make_condition, waiter_of, wait, forget}

abbrev pub infos : List Waiter → List ℕ
infos ws = map (λ w. w.info) ws

abbrev pub IsLive : Waiter → Type 0
IsLive w = (w.sched ≡ true) × (w.is_canceled ≡ false)

-- Those of `waits` wait, the coroutines among them in the queue and the threads on the cv_.
pub record Holds (is_coro : ℕ → Bool) (c : ConditionVariable) (waits : ℕ → Type 0) : Type 0 where
  pub coros : (p : ℕ) → In p (infos c.waiters) ↔ (waits p × (is_coro p ≡ true))
  pub threads : (p : ℕ) → In p c.sleepers ↔ (waits p × (is_coro p ≡ false))
  pub once_coros : Distinct (infos c.waiters)
  pub once_threads : Distinct c.sleepers
  pub live : All IsLive c.waiters

pub Holds-iff :
    {is_coro : ℕ → Bool} {c : ConditionVariable} {waits others : ℕ → Type 0}
    → ((p : ℕ) → waits p ↔ others p)
    → Holds is_coro c waits
    → Holds is_coro c others
Holds-iff h v = record {
  coros = λ p.
      (λ i. let (a, b) = (v.coros p).0 i in ((h p).0 a, b), λ (a, b). (v.coros p).1 ((h p).1 a, b));
  threads = λ p. (
    λ i. let (a, b) = (v.threads p).0 i in ((h p).0 a, b),
    λ (a, b). (v.threads p).1 ((h p).1 a, b),
  );
  once_coros = v.once_coros;
  once_threads = v.once_threads;
  live = v.live;
}

pub make-Holds : (is_coro : ℕ → Bool) → Holds is_coro make_condition (λ p. ⊥)
unfolding make_condition
make-Holds is_coro = record {
  coros = λ p. (λ i. absurd i, λ (a, b). a);
  threads = λ p. (λ i. absurd i, λ (a, b). a);
  once_coros = tt;
  once_threads = tt;
  live = tt;
}

infos-append : (ws : List Waiter) (w : Waiter) → infos (ws ++ w ∷ []) ≡ infos ws ++ w.info ∷ []
infos-append [] w = refl
infos-append (v ∷ ws) w = ap (◌∷◌ v.info) (infos-append ws w)

-- Where only `p` and the lists changed.
module _ {is_coro : ℕ → Bool} {c : ConditionVariable} {waits : ℕ → Type 0}
    (v : Holds is_coro c waits) (p : ℕ) where
  pub drop_coro :
      (x : Waiter) (xs : List Waiter)
      → c.waiters ≡ x ∷ xs
      → x.info ≡ p
      → Holds is_coro (record c { waiters = xs }) (λ q. waits q × (q ≢ p))
  drop_coro x xs e f =
      let d : Distinct (x.info ∷ infos xs) = subst (λ l. Distinct (infos l)) e v.once_coros in
      let (_, is_p) = (v.coros x.info).0 (subst (λ l. In x.info (infos l)) (sym e) (inl refl)) in
      record {
        coros = λ q. (
          λ i.
              let (a, b) = (v.coros q).0 (subst (λ l. In q (infos l)) (sym e) (inr i)) in
              ((a, λ g. In-ne (infos xs) i d.0 (g ∙ sym f)), b),
          λ ((a, n), b).
              later q (subst (λ l. In q (infos l)) e ((v.coros q).1 (a, b))) (λ g. n (g ∙ f)),
        );
        threads = λ q. (
          λ i.
              let (a, b) = (v.threads q).0 i in
              ((a, λ g. let h = ap is_coro (g ∙ sym f) in absurd (ground (arith, h, b, is_p))), b),
          λ ((a, n), b). (v.threads q).1 (a, b),
        );
        once_coros = d.1;
        once_threads = v.once_threads;
        live = (subst (All IsLive) e v.live).1;
      }
    where
      later : (q : ℕ) → In q (x.info ∷ infos xs) → q ≢ x.info → In q (infos xs)
      later q (inl g) n = absurd (n g)
      later q (inr i) n = i

  pub drop_thread :
      (ys : List ℕ)
      → is_coro p ≡ false
      → Distinct ys
      → ((z : ℕ) → In z ys ↔ (In z c.sleepers × (z ≢ p)))
      → Holds is_coro (record c { sleepers = ys }) (λ q. waits q × (q ≢ p))
  drop_thread ys is_p d h = record {
    coros = λ q. (
      λ i.
          let (a, b) = (v.coros q).0 i in
          ((a, λ g. let k = ap is_coro g in absurd (ground (arith, k, b, is_p))), b),
      λ ((a, n), b). (v.coros q).1 (a, b),
    );
    threads = λ q. (
      λ i. let (j, n) = (h q).0 i in let (a, b) = (v.threads q).0 j in ((a, n), b),
      λ ((a, n), b). (h q).1 ((v.threads q).1 (a, b), n),
    );
    once_coros = v.once_coros;
    once_threads = d;
    live = v.live;
  }

module _ {is_coro : ℕ → Bool} {c : ConditionVariable} {waits : ℕ → Type 0}
    (v : Holds is_coro c waits) where
  -- One more waits.
  pub wait-Holds :
      (p : ℕ) → ¬ waits p → Holds is_coro (wait (is_coro p) p c) (λ q. (q ≡ p) ⊎ waits q)
  unfolding wait cv_wait
  wait-Holds p n = elim (Bool-cases (is_coro p)) [
    | inl e ↦ rw e record {
      coros = λ q. rw (infos-append c.waiters (waiter_of p)) (
        λ i. elim ((In-append q (infos c.waiters) (p ∷ [])).0 i) [
          | inl j ↦ let (a, b) = (v.coros q).0 j in (inr a, b)
          | inr (inl f) ↦ (inl f, ap is_coro f ∙ e)
          | inr (inr f) ↦ absurd f
        ],
        λ (a, b).
            (In-append q (infos c.waiters) (p ∷ [])).1
              (elim a [ inl f ↦ inr (inl f) | inr w ↦ inl ((v.coros q).1 (w, b)) ]),
      );
      threads = λ q. (
        λ i. let (a, b) = (v.threads q).0 i in (inr a, b),
        λ (a, b). elim a [
          | inl f ↦ let g = ap is_coro f in absurd (ground (arith, e, g, b))
          | inr w ↦ (v.threads q).1 (w, b)
        ],
      );
      once_coros =
          rw (infos-append c.waiters (waiter_of p))
            (Distinct-snoc (infos c.waiters) p v.once_coros (λ i. n ((v.coros p).0 i).0));
      once_threads = v.once_threads;
      live = All-append IsLive c.waiters (waiter_of p ∷ []) v.live ((refl, refl), tt);
    }
    | inr e ↦ rw e record {
      coros = λ q. (
        λ i. let (a, b) = (v.coros q).0 i in (inr a, b),
        λ (a, b). elim a [
          | inl f ↦ let g = ap is_coro f in absurd (ground (arith, e, g, b))
          | inr w ↦ (v.coros q).1 (w, b)
        ],
      );
      threads = λ q. (
        λ i. elim i [
          | inl f ↦ (inl f, ap is_coro f ∙ e)
          | inr j ↦ let (a, b) = (v.threads q).0 j in (inr a, b)
        ],
        λ (a, b). elim a [ inl f ↦ inl f | inr w ↦ inr ((v.threads q).1 (w, b)) ],
      );
      once_coros = v.once_coros;
      once_threads = (λ i. n ((v.threads p).0 i).0, v.once_threads);
      live = v.live;
    }
  ]

  pub forget-Holds :
      (p : ℕ) → is_coro p ≡ false → Holds is_coro (forget p c) (λ q. waits q × (q ≢ p))
  unfolding forget
  forget-Holds p e =
      drop_thread v p (without p c.sleepers) e (Distinct-without p c.sleepers v.once_threads)
        (λ z. In-without z p c.sleepers)
