-- ===== src/Coroutine/Scheduler/Sleep.antt =====
-- The sleepers of src/coroutine/coroutine_scheduler.cpp.
use sheep_cpp.Base.{
  ℕ, ◌+◌, ◌<◌, ◌≤◌, ◌≡◌, ◌⊎◌, refl, sym, ap, ◌∙◌, inl, inr, List, [], ◌∷◌, ◌++◌, All, arith, ltb,
  Bool-cases, map,
}
use mathlib.Core.List.{append-nil, append_assoc}
use sheep_cpp.Coroutine.Scheduler.{
  Scheduler, before, push_sleep, pop_due, resume, resume_all, wake_up_sleep,
}
use sheep_cpp.Coroutine.Scheduler.Turns.{push_sleep-All}

-- By time, and by coroutine among equal times.
abbrev pub Le : ℕ × ℕ → ℕ × ℕ → Type 0
Le p q = (p.0 < q.0) ⊎ ((p.0 ≡ q.0) × (p.1 ≤ q.1))

abbrev pub IsSorted : List (ℕ × ℕ) → Type 0
IsSorted [] = Unit
IsSorted (p ∷ ps) = All (Le p) ps × IsSorted ps

All-Le-trans : (p q : ℕ × ℕ) (qs : List (ℕ × ℕ)) → Le p q → All (Le q) qs → All (Le p) qs
All-Le-trans p q [] h k = tt
All-Le-trans (t, c) (u, d) ((v, e) ∷ qs) h k = (ground arith, All-Le-trans (t, c) (u, d) qs h k.1)

push_sleep-IsSorted : (p : ℕ × ℕ) (qs : List (ℕ × ℕ)) → IsSorted qs → IsSorted (push_sleep p qs)
unfolding push_sleep before
push_sleep-IsSorted p [] s = (tt, tt)
push_sleep-IsSorted (t, c) ((u, d) ∷ qs) s = elim (Bool-cases (before (u, d) (t, c))) [
  | inl e ↦
      rw e
        (push_sleep-All (Le (u, d)) (t, c) qs (ground arith) s.0, push_sleep-IsSorted (t, c) qs s.1)
  | inr e ↦
      let l : Le (t, c) (u, d) = ground arith in rw e ((l, All-Le-trans (t, c) (u, d) qs l s.0), s)
]

All-later :
    (now : ℕ) (p : ℕ × ℕ) (qs : List (ℕ × ℕ)) → now < p.0 → All (Le p) qs → All (λ q. now < q.0) qs
All-later now p [] h k = tt
All-later now (t, c) ((u, d) ∷ qs) h k = (ground arith, All-later now (t, c) qs h k.1)

-- Every sleeper that `pop_due` leaves wakes later than now.
pop_due-later : (now : ℕ) (q : List (ℕ × ℕ)) → IsSorted q → All (λ p. now < p.0) (pop_due now q).1
unfolding pop_due
pop_due-later now [] s = tt
pop_due-later now ((t, c) ∷ q) s = elim (Bool-cases (ltb now t)) [
  | inl e ↦ rw e (ground arith, All-later now (t, c) q (ground arith) s.0)
  | inr e ↦ rw e (pop_due-later now q s.1)
]

pop_due-split :
    (now : ℕ) (q : List (ℕ × ℕ))
    → (due : List (ℕ × ℕ)) × (q ≡ due ++ (pop_due now q).1)
      × All (λ p. p.0 ≤ now) due
      × (map (λ p. p.1) due ≡ (pop_due now q).0)
unfolding pop_due
pop_due-split now [] = ([], refl, tt, refl)
pop_due-split now ((t, c) ∷ q) = elim (Bool-cases (ltb now t)) [
  | inl e ↦ rw e ([], refl, tt, refl)
  | inr e ↦
      let (due, f, a, g) = pop_due-split now q in
      rw e ((t, c) ∷ due, ap (◌∷◌ (t, c)) f, (ground arith, a), ap (◌∷◌ c) g)
]

resume_all_lem :
    (xs : List ℕ) (s : Scheduler)
    → resume_all xs s ≡ record s { resume_queue = s.resume_queue ++ xs }
unfolding resume_all resume
resume_all_lem [] s = simp append-nil
resume_all_lem (x ∷ xs) s =
    resume_all_lem xs (resume x s)
    ∙ ap (λ (q : List ℕ). record s { resume_queue = q }) (append_assoc s.resume_queue (x ∷ []) xs)

-- Whoever sleeps is kept in the order of waking.
pub sleeper-IsSorted :
    (s : Scheduler) (now ms : ℕ)
    → IsSorted s.sleep_queue
    → IsSorted (push_sleep (now + ms, s.current) s.sleep_queue)
sleeper-IsSorted s now ms h = push_sleep-IsSorted (now + ms, s.current) s.sleep_queue h

-- Of a sorted sleep queue, wakeUpSleep takes exactly the sleepers whose time has come and resumes
-- them in the order of their times, behind those that are resumed already; it changes nothing
-- else.
pub wake_up_sleep_lem :
    (now : ℕ) (s : Scheduler)
    → IsSorted s.sleep_queue
    → (due : List (ℕ × ℕ)) × (later : List (ℕ × ℕ)) × (s.sleep_queue ≡ due ++ later)
      × All (λ p. p.0 ≤ now) due
      × All (λ p. now < p.0) later
      × (wake_up_sleep now s
          ≡ record s { sleep_queue = later; resume_queue = s.resume_queue ++ map (λ p. p.1) due })
unfolding wake_up_sleep
wake_up_sleep_lem now s h =
    let (due, e, a, f) = pop_due-split now s.sleep_queue in
    let rest = (pop_due now s.sleep_queue).1 in
    (
      due,
      rest,
      e,
      a,
      pop_due-later now s.sleep_queue h,
      resume_all_lem (pop_due now s.sleep_queue).0 (record s { sleep_queue = rest })
          ∙ ap (λ (q : List ℕ). record s { sleep_queue = rest; resume_queue = s.resume_queue ++ q })
              (sym f),
    )
