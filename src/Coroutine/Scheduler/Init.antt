-- ===== src/Coroutine/Scheduler/Init.antt =====
-- The constructor of src/coroutine/coroutine_scheduler.cpp.
use sheep_cpp.Base.{
  ℕ, zero, suc, ◌+◌, ◌<◌, ◌≤◌, ◌≡◌, ◌≢◌, refl, ap, ◌∙◌, subst, inl, inr, true, List, [], ◌∷◌, In,
  All, arith, ℕ_discrete,
}
use sheep_cpp.Util.IntrusiveList.{Mem, init, insert}
use sheep_cpp.Util.IntrusiveList.Ring.{Seg-frame}
use sheep_cpp.Util.IntrusiveList.Walk.{init-Seg}
use sheep_cpp.Util.IntrusiveList.Rings.{
  Rings, IsHead, pushed, insert-Rings, In-pushed, pushed_same, pushed_other,
}
use sheep_cpp.Coroutine.Scheduler.{
  Scheduler, ◌>>=◌, fill, null_mem, make_scheduler, suspend_head, resume_head, Call, Turn, run,
}
use sheep_cpp.Coroutine.Scheduler.Lists.{Returns, Returns-bind}
use sheep_cpp.Coroutine.Scheduler.Turns.{Good, Ended, ValidScript}
use sheep_cpp.Coroutine.Scheduler.Run.{ValidRound, run-Ended}

-- A new head with nothing on it joins the rings.
init-Rings :
    {n top above : ℕ} {m : Mem} {lists : ℕ → List ℕ}
    → Rings n top m lists
    → n ≤ top
    → top + 1 ≡ above
    → lists top ≡ []
    → Rings n above (init top m) lists
init-Rings {n} {top} {above} {m} {lists} r b next e = record {
  seg = λ h i. elim (ℕ_discrete h top) [
    | yes q ↦ rw (q, e) (init-Seg m top)
    | no q ↦
        Seg-frame m (init top m) h (lists h) h (λ k j. (off h (old h i q) k j).0)
          (λ k j. (off h (old h i q) k j).1) (r.seg h (old h i q))
  ];
  distinct =
      λ h i. elim (ℕ_discrete h top) [ yes q ↦ rw (q, e) tt | no q ↦ r.distinct h (old h i q) ];
  nodes = λ h x i j. elim (ℕ_discrete h top) [
    | yes q ↦ absurd (subst (In x) (ap lists q ∙ e) j)
    | no q ↦ r.nodes h x (old h i q) j
  ];
  apart = λ g h x i j k l. elim (ℕ_discrete g top) [
    | yes q ↦ absurd (subst (In x) (ap lists q ∙ e) k)
    | no q ↦ elim (ℕ_discrete h top) [
      | yes p ↦ absurd (subst (In x) (ap lists p ∙ e) l)
      | no p ↦ r.apart g h x (old g i q) (old h j p) k l
    ]
  ];
}
  where
    old : (h : ℕ) → IsHead n above h → h ≢ top → IsHead n top h
    old h i q = (omega arith, omega arith)

    off :
        (h : ℕ)
        → IsHead n top h
        → (k : ℕ) → In k (h ∷ lists h)
        → ((init top m).next k ≡ m.next k) × ((init top m).prev k ≡ m.prev k)
    off h i k (inl c) = unfold init in (ground arith, ground arith)
    off h i k (inr c) = let d = r.nodes h k i c in unfold init in (ground arith, ground arith)

-- The free list holds the addresses below `i`, and the other lists are empty.
record Filled (n i : ℕ) (m : Mem) (lists : ℕ → List ℕ) : Type 0 where
  rings : Rings n (n + 1) m lists
  below : (x : ℕ) → In x (lists n) → x < i
  linked : (x : ℕ) → x < i → In x (lists n)
  others : (h : ℕ) → h ≢ n → lists h ≡ []

fill-Filled :
    (left i n : ℕ) (m : Mem) (lists : ℕ → List ℕ)
    → i + left ≡ n
    → Filled n i m lists
    → Returns (λ m'. (lists' : ℕ → List ℕ) × Filled n n m' lists') (fill left i n m)
unfolding fill
fill-Filled zero i n m lists e f =
    (m, refl, (lists, subst (λ k. Filled n k m lists) (omega arith) f))
fill-Filled (suc left) i n m lists e f =
    Returns-bind (insert n i m) (fill left (i + 1) n) inserted λ m1 s.
      fill-Filled left (i + 1) n m1 (pushed n i lists) (omega arith) record {
        rings = s;
        below = λ x j. elim (In-pushed n i n x lists j) [
          | inl (_, q) ↦ omega arith
          | inr k ↦ let b = f.below x k in omega arith
        ];
        linked = λ x b.
            rw (pushed_same n i lists)
              (elim (ℕ_discrete x i) [ yes q ↦ inl q | no q ↦ inr (f.linked x (omega arith)) ]);
        others = λ h q. rw (pushed_other n i h lists q) (f.others h q);
      }
  where
    unlinked : (h : ℕ) → IsHead n (n + 1) h → ¬ In i (lists h)
    unlinked h (a, b) j =
        let c = f.below i (subst (λ k. In i (lists k)) (omega arith) j) in absurd (omega arith)

    inserted : Returns (λ m'. Rings n (n + 1) m' (pushed n i lists)) (insert n i m)
    inserted = insert-Rings f.rings n i (omega arith, omega arith) (omega arith) unlinked

-- A new scheduler is well formed, all its coroutines are free, and it runs.
pub make_scheduler-Good :
    (n : ℕ)
    → Returns
        (λ s. Good n s × (s.is_running ≡ true) × (s.resume_queue ≡ []) × (s.sleep_queue ≡ []))
        (make_scheduler n)
unfolding make_scheduler
make_scheduler-Good n = Returns-bind (fill n 0 n (init n null_mem)) _ filled λ m (lists, f).
    let r1 : Rings n (n + 2) (init (suspend_head n) m) lists =
      init-Rings f.rings (omega arith) (omega arith) (f.others (n + 1) (omega arith)) in
    let r2 : Rings n (n + 3) (init (resume_head n) (init (suspend_head n) m)) lists =
      init-Rings r1 (omega arith) (omega arith) (f.others (n + 2) (omega arith)) in
    (
      _,
      refl,
      (
        record {
          wf = record {
            lists = lists;
            rings = init-Rings r2 (omega arith) (omega arith) (f.others (n + 3) (omega arith));
            total = λ x b. (n, (omega arith, omega arith), f.linked x b);
            queued = tt;
            sleepers = tt;
          };
          size = refl;
          running = refl;
          apt = λ y. (
            λ i. absurd (elim i [
              | inl k ↦ subst (In y) (f.others (n + 1) (omega arith)) k
              | inr k ↦ subst (In y) (f.others (n + 3) (omega arith)) k
            ]),
            λ i. refl,
          );
        },
        refl,
        refl,
        refl,
      ),
    )
  where
    empty : Rings n n null_mem (λ h. [])
    empty = record {
      seg = λ h i. absurd (omega arith);
      distinct = λ h i. absurd (omega arith);
      nodes = λ h x i j. absurd (omega arith);
      apart = λ g h x i j k l. absurd (omega arith);
    }

    filled :
        Returns (λ m'. (lists' : ℕ → List ℕ) × Filled n n m' lists') (fill n 0 n (init n null_mem))
    filled =
        fill-Filled n 0 n (init n null_mem) (λ h. []) (omega arith)
          record {
            rings = init-Rings empty (omega arith) refl refl;
            below = λ x j. absurd j;
            linked = λ x b. absurd (omega arith);
            others = λ h q. refl;
          }

-- From the constructor on, with any number of coroutines and rounds, whatever scripts the
-- coroutines and the event loop follow on coroutines of the array: no null pointer of a list is
-- followed, and the run ends in one of two ways. Either it goes through all its rounds or is
-- stopped, or the program ends at a switch to a coroutine whose function is over or that never
-- had one. In both cases the four lists are rings that hold each coroutine exactly once, those on
-- the suspend and the yield list have a function to go on with, and the free ones have none.
pub run-make_scheduler :
    (n : ℕ) (script : Scheduler → Turn) (rounds : List (List Call × ℕ))
    → ValidScript n script
    → All (ValidRound n) rounds
    → Returns (Ended n) (make_scheduler n >>= run script rounds)
run-make_scheduler n script rounds v w =
    Returns-bind (make_scheduler n) (run script rounds) (make_scheduler-Good n)
      (λ s g. run-Ended script rounds v w g.0)
