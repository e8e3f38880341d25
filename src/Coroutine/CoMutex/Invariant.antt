-- ===== src/Coroutine/CoMutex/Invariant.antt =====
-- The invariant of the CoMutex of src/coroutine/coroutine_mutex.h, and the changes that a step makes.
use sheep_cpp.Base.{
  Distinct-snoc, ℕ, ◌≡◌, ◌≢◌, ◌⊎◌, refl, sym, ap, subst, inl, inr, Bool, true, false, List, [], ◌∷◌,
  ◌++◌, In, In-ne, In-append, Distinct, All, All-append, map, ℕ_discrete, arith,
}
use sheep_cpp.Coroutine.Waiters.{Waiter}
use sheep_cpp.Coroutine.CoMutex.{Pc, idle, contended, queued, woken, holding, World, set_pc, waiter}

-- The lock is a coroutine's from the hand-over on, before its lock() has returned.
abbrev pub owns : Pc → Bool
owns idle = false
owns contended = false
owns queued = false
owns woken = true
owns holding = true

abbrev pub Owns : Pc → Type 0
Owns c = owns c ≡ true

abbrev pub infos : List Waiter → List ℕ
infos ws = map (λ w. w.info) ws

abbrev pub IsLive : Waiter → Type 0
IsLive w = (w.sched ≡ true) × (w.is_canceled ≡ false)

pub record Inv (w : World) : Type 0 where
  pub locked : (p : ℕ) → Owns (w.pc p) → w.mutex.is_lock ≡ true
  pub unique : (p q : ℕ) → Owns (w.pc p) → Owns (w.pc q) → p ≡ q
  pub owner : w.mutex.is_lock ≡ true → (p : ℕ) × Owns (w.pc p)
  pub in_queue : (p : ℕ) → w.pc p ≡ queued → In p (infos w.mutex.waiters)
  pub is_queued : (p : ℕ) → In p (infos w.mutex.waiters) → w.pc p ≡ queued
  pub distinct : Distinct (infos w.mutex.waiters)
  pub live : All IsLive w.mutex.waiters
  pub waited : w.mutex.waiters ≢ [] → w.mutex.is_lock ≡ true

-- A free lock is owned and awaited by nobody; so the coroutine that takes it owns it alone.
pub acquire-Inv :
    (p : ℕ) (w : World)
    → Inv w
    → w.pc p ≢ queued
    → w.mutex.is_lock ≡ false
    → Inv (record { mutex = record w.mutex { is_lock = true }; pc = set_pc p holding w.pc })
unfolding set_pc
acquire-Inv p w v n e = record {
  locked = λ q o. refl;
  unique = λ a b o u. ground (arith, v.locked a, v.locked b);
  owner = λ _. (p, ground arith);
  in_queue = λ q o. v.in_queue q (ground arith);
  is_queued = λ q o. let f = v.is_queued q o in ground arith;
  distinct = v.distinct;
  live = v.live;
  waited = λ _. refl;
}

-- A coroutine that neither owns the lock nor waits in the queue steps to another such place.
pub stay_out-Inv :
    (p : ℕ) (w : World) (c : Pc)
    → Inv w
    → w.pc p ≢ queued
    → owns (w.pc p) ≡ false
    → c ≢ queued
    → owns c ≡ false
    → Inv (record w { pc = set_pc p c w.pc })
unfolding set_pc
stay_out-Inv p w c v n o m l = record {
  locked = λ q i. v.locked q (ground arith);
  unique = λ a b i j. v.unique a b (ground arith) (ground arith);
  owner = λ t. let (q, i) = v.owner t in (q, ground arith);
  in_queue = λ q i. v.in_queue q (ground arith);
  is_queued = λ q i. let f = v.is_queued q i in ground arith;
  distinct = v.distinct;
  live = v.live;
  waited = v.waited;
}

-- The owner goes from being woken to holding the lock.
pub hold-Inv :
    (p : ℕ) (w : World) → Inv w → w.pc p ≡ woken → Inv (record w { pc = set_pc p holding w.pc })
unfolding set_pc
hold-Inv p w v e = record {
  locked = λ q i. v.locked q (ground arith);
  unique = λ a b i j. v.unique a b (ground arith) (ground arith);
  owner = λ t. let (q, i) = v.owner t in (q, ground arith);
  in_queue = λ q i. v.in_queue q (ground arith);
  is_queued = λ q i. let f = v.is_queued q i in ground arith;
  distinct = v.distinct;
  live = v.live;
  waited = v.waited;
}

infos-append : (ws : List Waiter) (w : Waiter) → infos (ws ++ w ∷ []) ≡ infos ws ++ w.info ∷ []
infos-append [] w = refl
infos-append (v ∷ ws) w = ap (◌∷◌ v.info) (infos-append ws w)

-- A second failed try puts the coroutine last in the queue.
pub enqueue-Inv :
    (p : ℕ) (w : World)
    → Inv w
    → w.pc p ≢ queued
    → owns (w.pc p) ≡ false
    → w.mutex.is_lock ≡ true
    → Inv (record {
      mutex = record w.mutex { waiters = w.mutex.waiters ++ waiter p ∷ [] };
      pc = set_pc p queued w.pc;
    })
unfolding set_pc
enqueue-Inv p w v n o e = record {
  locked = λ q i. e;
  unique = λ a b i j. v.unique a b (ground arith) (ground arith);
  owner = λ t. let (q, i) = v.owner t in (q, ground arith);
  in_queue = λ q i. rw split ((In-append q (infos ws) (p ∷ [])).1 (place q i (ℕ_discrete q p)));
  is_queued = λ q i. elim ((In-append q (infos ws) (p ∷ [])).0 (subst (In q) split i)) [
    | inl j ↦ let f = v.is_queued q j in ground arith
    | inr (inl f) ↦ ground arith
    | inr (inr b) ↦ absurd b
  ];
  distinct = rw split (Distinct-snoc (infos ws) p v.distinct (λ i. n (v.is_queued p i)));
  live = All-append IsLive ws (waiter p ∷ []) v.live ((refl, refl), tt);
  waited = λ _. e;
}
  where
    ws : List Waiter
    ws = w.mutex.waiters

    split : infos (ws ++ waiter p ∷ []) ≡ infos ws ++ p ∷ []
    split = infos-append ws (waiter p)

    place :
        (q : ℕ) → set_pc p queued w.pc q ≡ queued → Dec (q ≡ p) → In q (infos ws) ⊎ In q (p ∷ [])
    place q i (yes f) = inr (inl f)
    place q i (no f) = inl (v.in_queue q (ground arith))

-- With nobody queued, unlock() frees the lock.
pub release-Inv :
    (p : ℕ) (w : World)
    → Inv w
    → w.pc p ≡ holding
    → w.mutex.waiters ≡ []
    → Inv (record { mutex = record { is_lock = false; waiters = [] }; pc = set_pc p idle w.pc })
unfolding set_pc
release-Inv p w v h e = record {
  locked = λ q i. ground (arith, v.unique p q);
  unique = λ a b i j. v.unique a b (ground arith) (ground arith);
  owner = λ t. cc;
  in_queue = λ q i. subst (λ l. In q (infos l)) e (v.in_queue q (ground arith));
  is_queued = λ q i. absurd i;
  distinct = tt;
  live = tt;
  waited = λ n. absurd (n refl);
}

-- Else it hands the lock to the longest waiter.
pub hand_over-Inv :
    (p : ℕ) (w : World) (x : Waiter) (xs : List Waiter)
    → Inv w
    → w.pc p ≡ holding
    → w.mutex.waiters ≡ x ∷ xs
    → Inv (record {
      mutex = record w.mutex { waiters = xs };
      pc = set_pc x.info woken (set_pc p idle w.pc);
    })
unfolding set_pc
hand_over-Inv p w x xs v h e =
    let l = v.locked p (ground arith) in
    let d : Distinct (x.info ∷ infos xs) = subst (λ k. Distinct (infos k)) e v.distinct in
    let f : w.pc x.info ≡ queued =
      v.is_queued x.info (subst (λ k. In x.info (infos k)) (sym e) (inl refl)) in
    record {
      locked = λ q i. l;
      unique = λ a b i j. ground (arith, v.unique p a, v.unique p b);
      owner = λ t. (x.info, ground arith);
      in_queue = λ q i.
          later q (subst (λ k. In q (infos k)) e (v.in_queue q (ground arith))) (ground arith);
      is_queued = λ q i.
          let g = v.is_queued q (subst (λ k. In q (infos k)) (sym e) (inr i)) in
          let n = In-ne (infos xs) i d.0 in ground arith;
      distinct = d.1;
      live = (subst (All IsLive) e v.live).1;
      waited = λ _. l;
    }
  where
    later : (q : ℕ) → In q (x.info ∷ infos xs) → q ≢ x.info → In q (infos xs)
    later q (inl g) n = absurd (n g)
    later q (inr i) n = i
