-- ===== src/Coroutine/Condition/Wakeups.antt =====
-- Whom a notification of a ConditionVariable of src/coroutine/coroutine_mutex.h wakes.
use sheep_cpp.Base.{
  ℕ, ◌≡◌, ◌≢◌, ◌⊎◌, ◌↔◌, refl, sym, subst, inl, inr, Bool, some, List, [], ◌∷◌, In, In-append,
  Distinct, All, Bool-cases, take_one, take_one-Takes, arith, length,
}
use sheep_cpp.Coroutine.Waiters.{Waiter, notify_one, notify_all, notify_nolock, wakeup, woken_too}
use sheep_cpp.Coroutine.Condition.{
  ConditionVariable, make_condition, notify_thread, notify_one_of, notify_everyone,
}
use sheep_cpp.Coroutine.Condition.Queues.{infos, IsLive, Holds, make-Holds, drop_coro, drop_thread}

-- A notification wakes one that waits, or finds nobody.
abbrev pub Wakes : (ℕ → Bool) → (ℕ → Type 0) → ConditionVariable × List ℕ → Type 0
Wakes is_coro waits r =
    (((p : ℕ) → ¬ waits p) × (r.1 ≡ []) × Holds is_coro r.0 waits)
    ⊎ ((p : ℕ) × waits p × (r.1 ≡ p ∷ []) × Holds is_coro r.0 (λ q. waits q × (q ≢ p)))

-- It wakes all that wait.
abbrev pub WakesAll : (ℕ → Bool) → (ℕ → Type 0) → ConditionVariable × List ℕ → Type 0
WakesAll is_coro waits r = ((p : ℕ) → In p r.1 ↔ waits p) × Holds is_coro r.0 (λ q. ⊥)

notify_one_first :
    (x : Waiter) (xs : List Waiter)
    → IsLive x
    → notify_one (x ∷ xs) ≡ record { resumed = x.info ∷ []; count = 1; left = xs }
unfolding notify_one notify_nolock wakeup
notify_one_first x xs l = let (a, b) = l in ground (arith, a, b)

notify_one_none : notify_one [] ≡ record { resumed = []; count = 0; left = [] }
unfolding notify_one
notify_one_none = refl

notify_all_live :
    (ws : List Waiter)
    → All IsLive ws
    → notify_all ws ≡ record { resumed = infos ws; count = length ws; left = [] }
unfolding notify_all notify_nolock wakeup woken_too
notify_all_live [] l = refl
notify_all_live (w ∷ ws) l =
    let ih = notify_all_live ws l.1 in let (a, b) = l.0 in ground (arith, ih, a, b)

notify_thread-some :
    (k : ℕ) (c : ConditionVariable) (p : ℕ) (rest : List ℕ)
    → take_one k c.sleepers ≡ some (p, rest)
    → notify_thread k c ≡ (record c { sleepers = rest }, p ∷ [])
unfolding notify_thread
notify_thread-some k c p rest e = rw (notify_thread, e) refl

module _ {is_coro : ℕ → Bool} {c : ConditionVariable} {waits : ℕ → Type 0}
    (v : Holds is_coro c waits) where
  nobody : c.waiters ≡ [] → c.sleepers ≡ [] → (p : ℕ) → ¬ waits p
  nobody e f p a = elim (Bool-cases (is_coro p)) [
    | inl b ↦ subst (λ l. In p (infos l)) e ((v.coros p).1 (a, b))
    | inr b ↦ subst (In p) f ((v.threads p).1 (a, b))
  ]

  none_left : c.waiters ≡ [] → c.sleepers ≡ [] → c ≡ record { waiters = []; sleepers = [] }
  none_left e f = λ i. record { waiters = e i; sleepers = f i }

  pub notify_one_of-Wakes : (k : ℕ) → Wakes is_coro waits (notify_one_of k c)
  unfolding notify_one_of notify_thread take_one notify_one notify_nolock
  notify_one_of-Wakes k = coros c.waiters refl c.sleepers refl
    where
      coros :
          (ws : List Waiter)
          → c.waiters ≡ ws
          → (ts : List ℕ) → c.sleepers ≡ ts
          → Wakes is_coro waits (notify_one_of k c)
      coros (x ∷ xs) e ts f =
          let l = (subst (All IsLive) e v.live).0 in
          rw (e, notify_one_first x xs l)
            (inr (
              x.info,
              ((v.coros x.info).0 (subst (λ l. In x.info (infos l)) (sym e) (inl refl))).0,
              refl,
              drop_coro v x.info x xs e refl,
            ))
      coros [] e [] f =
          rw (e, f) (inl (nobody e f, refl, subst (λ x. Holds is_coro x waits) (none_left e f) v))
      coros [] e (t ∷ ts) f =
          let d : Distinct (t ∷ ts) = subst Distinct f v.once_threads in
          let (p, rest, g, (i, dr, h)) = take_one-Takes k t ts d in
          let (w, is_p) = (v.threads p).0 (subst (In p) (sym f) i) in
          rw (e, f, notify_thread-some k (record { waiters = []; sleepers = t ∷ ts }) p rest g)
            (inr (
              p,
              w,
              refl,
              subst
                  (λ l.
                    Holds is_coro (record { waiters = l; sleepers = rest })
                      (λ q. waits q × (q ≢ p)))
                  e
                  (drop_thread v p rest is_p dr
                    (subst (λ l. (z : ℕ) → In z rest ↔ (In z l × (z ≢ p))) (sym f) h)),
            ))

  pub notify_everyone-WakesAll : WakesAll is_coro waits (notify_everyone c)
  unfolding notify_everyone make_condition
  notify_everyone-WakesAll = rw (notify_all_live c.waiters v.live) (
    λ p. (
      λ i. elim ((In-append p (infos c.waiters) c.sleepers).0 i) [
        | inl j ↦ ((v.coros p).0 j).0
        | inr j ↦ ((v.threads p).0 j).0
      ],
      λ w. (In-append p (infos c.waiters) c.sleepers).1 (elim (Bool-cases (is_coro p)) [
        | inl b ↦ inl ((v.coros p).1 (w, b))
        | inr b ↦ inr ((v.threads p).1 (w, b))
      ]),
    ),
    make-Holds is_coro,
  )
