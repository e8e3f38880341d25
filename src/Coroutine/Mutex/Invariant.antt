-- ===== src/Coroutine/Mutex/Invariant.antt =====
-- The invariant of the Mutex of src/coroutine/coroutine_mutex.h, and the changes that a step makes.
use sheep_cpp.Base.{
  ℕ, ◌≡◌, ◌≢◌, ◌⊎◌, refl, ap, inl, inr, Bool, true, false, List, [], ◌∷◌, ltb, Bool-cases,
  same_or_not, set_at, without, arith,
}
use sheep_cpp.Coroutine.Condition.{ConditionVariable, forget, notify_one_of}
use sheep_cpp.Coroutine.Condition.Queues.{Holds, Holds-iff, wait-Holds, forget-Holds}
use sheep_cpp.Coroutine.Condition.Wakeups.{Wakes, notify_one_of-Wakes}
use sheep_cpp.Coroutine.Mutex.{
  Pc, idle, waiting, woken, holding, World, try_lock, leave, unlock, wake,
}
use sheep_cpp.Coroutine.Mutex.Counts.{counts, CountedBy, counted-set, counted-add, counted-remove}

abbrev pub Waits : World → ℕ → Type 0
Waits w p = w.pc p ≡ waiting

-- What every section keeps.
pub record Sound (is_coro : ℕ → Bool) (w : World) : Type 0 where
  pub locked : (p : ℕ) → w.pc p ≡ holding → w.mutex.is_lock ≡ true
  pub unique : (p q : ℕ) → w.pc p ≡ holding → w.pc q ≡ holding → p ≡ q
  pub owner : w.mutex.is_lock ≡ true → (p : ℕ) × (w.pc p ≡ holding)
  pub queue : Holds is_coro w.mutex.cond (Waits w)
  pub inside : List ℕ
  pub counted : CountedBy w.mutex.waitings w.pc inside

-- One that waits has someone to wake it: the holder, or one that was woken and is yet to try.
abbrev pub Hope : World → Type 0
Hope w = (p : ℕ) → Waits w p → (w.mutex.is_lock ≡ true) ⊎ ((q : ℕ) × (w.pc q ≡ woken))

abbrev pub Inv : (ℕ → Bool) → World → Type 0
Inv is_coro w = Sound is_coro w × Hope w

-- From `idle`, lock() takes a free mutex, and waits for one that is taken.
pub try_lock-Inv :
    (is_coro : ℕ → Bool) (p : ℕ) (w : World)
    → Sound is_coro w
    → w.pc p ≡ idle
    → Inv is_coro (try_lock (is_coro p) p w)
unfolding try_lock
try_lock-Inv is_coro p w v e = elim (Bool-cases w.mutex.is_lock) [
  | inl t ↦ rw t (
    record {
      locked = λ q o. refl;
      unique = λ a b o u. v.unique a b (ground arith) (ground arith);
      owner = λ _. let (q, o) = v.owner t in (q, ground arith);
      queue =
          Holds-iff
            (λ q. (
              λ i. elim i [ inl a ↦ ground arith | inr b ↦ ground arith ],
              λ b. elim (same_or_not q p) [ inl a ↦ inl a | inr a ↦ inr (ground arith) ],
            ))
            (wait-Holds v.queue p (λ b. ground arith));
      inside = p ∷ v.inside;
      counted = counted-add w.mutex.waitings w.pc p waiting v.inside (ground arith) refl v.counted;
    },
    λ q b. inl refl,
  )
  | inr t ↦ rw t (
    record {
      locked = λ q o. refl;
      unique = λ a b o u. ground (arith, v.locked a, v.locked b);
      owner = λ _. (p, ground arith);
      queue = Holds-iff (λ q. (λ b. ground arith, λ b. ground arith)) v.queue;
      inside = v.inside;
      counted = counted-set w.mutex.waitings w.pc p holding v.inside (ground arith) v.counted;
    },
    λ q b. inl refl,
  )
]

-- One that was woken is no longer counted.
pub leave-Sound :
    (is_coro : ℕ → Bool) (p : ℕ) (w : World)
    → Sound is_coro w
    → w.pc p ≡ woken
    → Sound is_coro (leave p w)
unfolding leave
leave-Sound is_coro p w v e = record {
  locked = λ q o. v.locked q (ground arith);
  unique = λ a b o u. v.unique a b (ground arith) (ground arith);
  owner = λ t. let (q, o) = v.owner t in (q, ground arith);
  queue = Holds-iff (λ q. (λ b. ground arith, λ b. ground arith)) v.queue;
  inside = without p v.inside;
  counted = counted-remove w.mutex.waitings w.pc p idle v.inside (ground arith) refl v.counted;
}

-- A thread that wakes up by itself.
pub spurious-Inv :
    (is_coro : ℕ → Bool) (p : ℕ) (w : World)
    → Inv is_coro w
    → w.pc p ≡ waiting
    → is_coro p ≡ false
    → Inv is_coro (record {
      mutex = record w.mutex { cond = forget p w.mutex.cond };
      pc = set_at p woken w.pc;
    })
spurious-Inv is_coro p w (v, h) e f = (
  record {
    locked = λ q o. v.locked q (ground arith);
    unique = λ a b o u. v.unique a b (ground arith) (ground arith);
    owner = λ t. let (q, o) = v.owner t in (q, ground arith);
    queue =
        Holds-iff (λ q. (λ (b, n). ground arith, λ b. (ground arith, λ a. ground arith)))
          (forget-Holds v.queue p f);
    inside = v.inside;
    counted = counted-set w.mutex.waitings w.pc p woken v.inside (ground arith) v.counted;
  },
  λ q b. inr (p, ground arith),
)

-- `isLock = false` by the holder.
release-Sound :
    (is_coro : ℕ → Bool) (p : ℕ) (w : World)
    → Sound is_coro w
    → w.pc p ≡ holding
    → Sound is_coro (record { mutex = record w.mutex { is_lock = false }; pc = set_at p idle w.pc })
release-Sound is_coro p w v e = record {
  locked = λ q o. ground (arith, v.unique p q);
  unique = λ a b o u. v.unique a b (ground arith) (ground arith);
  owner = λ t. ground arith;
  queue = Holds-iff (λ q. (λ b. ground arith, λ b. ground arith)) v.queue;
  inside = v.inside;
  counted = counted-set w.mutex.waitings w.pc p idle v.inside (ground arith) v.counted;
}

-- A notification gives hope to those that still wait.
notified-Inv :
    (is_coro : ℕ → Bool) (w : World) (r : ConditionVariable × List ℕ)
    → Sound is_coro w
    → Wakes is_coro (Waits w) r
    → Inv is_coro (record { mutex = record w.mutex { cond = r.0 }; pc = wake r.1 w.pc })
unfolding wake
notified-Inv is_coro w (c, l) v (inl (n, e, q)) = rw e (
  record {
    locked = v.locked;
    unique = v.unique;
    owner = v.owner;
    queue = q;
    inside = v.inside;
    counted = v.counted;
  },
  λ p b. absurd (n p b),
)
notified-Inv is_coro w (c, l) v (inr (p, b, e, h)) = rw e (
  record {
    locked = λ q o. v.locked q (ground arith);
    unique = λ a b o u. v.unique a b (ground arith) (ground arith);
    owner = λ t. let (q, o) = v.owner t in (q, ground arith);
    queue = Holds-iff (λ q. (λ (b, n). ground arith, λ b. (ground arith, λ a. ground arith))) h;
    inside = v.inside;
    counted = counted-set w.mutex.waitings w.pc p woken v.inside (ground arith) v.counted;
  },
  λ q b. inr (p, ground arith),
)

no_one_counted :
    (n : ℕ) (pc : ℕ → Pc) (xs : List ℕ) → CountedBy n pc xs → n ≡ 0 → (p : ℕ) → counts (pc p) ≢ true
no_one_counted n pc [] (d, g, h) e p t = (h p).1 t
no_one_counted n pc (x ∷ xs) (d, g, h) e p t = ground arith

-- unlock() wakes one that waits, if there is one.
pub unlock-Inv :
    (is_coro : ℕ → Bool) (p k : ℕ) (w : World)
    → Sound is_coro w
    → w.pc p ≡ holding
    → Inv is_coro (record {
      mutex = (unlock k w.mutex).0;
      pc = wake (unlock k w.mutex).1 (set_at p idle w.pc);
    })
unfolding unlock wake
unlock-Inv is_coro p k w v e =
    let w' : World = record {
      mutex = record w.mutex { is_lock = false };
      pc = set_at p idle w.pc;
    } in
    let v' = release-Sound is_coro p w v e in
    elim (Bool-cases (ltb 0 w.mutex.waitings)) [
      | inl t ↦ rw t (
          notified-Inv is_coro w' (notify_one_of k w.mutex.cond) v'
            (notify_one_of-Wakes v'.queue k))
      | inr t ↦ rw t (
        v',
        λ q b. absurd (
            no_one_counted w'.mutex.waitings w'.pc v'.inside v'.counted (ground arith) q
              (ap counts b)),
      )
    ]
