-- ===== src/Net/TimerPoller/Maps.antt =====
-- The maps of src/net/common/poller/timer_poller.cpp, by time.
use sheep_cpp.Base.{
  ℕ, ◌<◌, ◌≤◌, ◌≡◌, ◌↔◌, refl, ap, subst, ◌∙◌, inl, inr, ◌⊎◌, some, List, [], ◌∷◌, ◌++◌,
  if◌then◌else◌, ◌==◌, ltb, All, In, In-append, ==_iff, Bool-cases, arith,
}
use sheep_cpp.Net.TimerPoller.{
  insert_id, add_event, find_time, erase_time, erase_id, erase_event, due,
}

-- The events of one time.
abbrev pub at : ℕ → List (ℕ × List ℕ) → List ℕ
at t [] = []
at t ((u, ids) ∷ r) = let rest = at t r in if t == u then ids else rest

abbrev pub IsSorted : List (ℕ × List ℕ) → Type 0
IsSorted [] = Unit
IsSorted (p ∷ r) = All (λ q. p.0 < q.0) r × IsSorted r

pub at_later : (t : ℕ) (r : List (ℕ × List ℕ)) → All (λ q. t < q.0) r → at t r ≡ []
at_later t [] h = refl
at_later t ((u, ids) ∷ r) h = let e = at_later t r h.1 in let l = h.0 in ground (arith, e, l)

pub All-mono :
    (t u : ℕ) (r : List (ℕ × List ℕ)) → t < u → All (λ q. u < q.0) r → All (λ q. t < q.0) r
All-mono t u [] l h = tt
All-mono t u (p ∷ r) l h = let k = h.0 in (omega (arith, k), All-mono t u r l h.1)

pub at-add_event :
    (t i s : ℕ) (r : List (ℕ × List ℕ))
    → IsSorted r
    → at s (add_event t i r) ≡ (if s == t then insert_id i (at t r) else at s r)
unfolding add_event insert_id
at-add_event t i s [] h = refl
at-add_event t i s ((u, ids) ∷ r) h =
    let e = at-add_event t i s r h.1 in
    elim (Bool-cases (ltb t u)) [
      | inl l ↦
          let z : at t r ≡ [] = at_later t r (All-mono t u r (ground arith) h.0) in
          ground (arith, z)
      | inr l ↦ ground (arith, e)
    ]

All-add_event :
    (u t i : ℕ) (r : List (ℕ × List ℕ))
    → u < t
    → All (λ q. u < q.0) r
    → All (λ q. u < q.0) (add_event t i r)
unfolding add_event
All-add_event u t i [] l h = (l, tt)
All-add_event u t i ((v, ids) ∷ r) l h =
    let e = All-add_event u t i r l h.1 in let k = h.0 in let m = h.1 in ground (arith, e, k, m)

pub add_event-IsSorted : (t i : ℕ) (r : List (ℕ × List ℕ)) → IsSorted r → IsSorted (add_event t i r)
unfolding add_event
add_event-IsSorted t i [] h = (tt, tt)
add_event-IsSorted t i ((u, ids) ∷ r) h =
    let e = add_event-IsSorted t i r h.1 in
    let k = h.0 in
    let m = h.1 in
    elim (Bool-cases (ltb t u)) [
      | inl l ↦ let z = All-mono t u r (ground arith) h.0 in rw l ((ground arith, z), h)
      | inr l ↦ elim (Bool-cases (t == u)) [
        | inl g ↦ rw (l, g) h
        | inr g ↦ rw (l, g) (All-add_event u t i r (ground arith) h.0, e)
      ]
    ]

pub find_time-at :
    (t : ℕ) (r : List (ℕ × List ℕ)) (i : ℕ) → In i (at t r) → find_time t r ≡ some (at t r)
unfolding find_time
find_time-at t [] i h = absurd h
find_time-at t ((u, ids) ∷ r) i h = elim (Bool-cases (t == u)) [
  | inl e ↦ rw e refl
  | inr e ↦ rw e (find_time-at t r i (ground arith))
]

pub at-erase_time :
    (t s : ℕ) (r : List (ℕ × List ℕ))
    → IsSorted r
    → at s (erase_time t r) ≡ (if s == t then [] else at s r)
unfolding erase_time
at-erase_time t s [] h = ground arith
at-erase_time t s ((u, ids) ∷ r) h =
    let e = at-erase_time t s r h.1 in
    elim (Bool-cases (t == u)) [
      | inl g ↦ let z : at u r ≡ [] = at_later u r h.0 in ground (arith, z)
      | inr g ↦ ground (arith, e)
    ]

pub at-erase_event :
    (t i s : ℕ) (r : List (ℕ × List ℕ))
    → at s (erase_event t i r) ≡ (if s == t then erase_id i (at t r) else at s r)
unfolding erase_event erase_id
at-erase_event t i s [] = ground arith
at-erase_event t i s ((u, ids) ∷ r) = let e = at-erase_event t i s r in ground (arith, e)

pub In-due :
    (now i : ℕ) (r : List (ℕ × List ℕ))
    → IsSorted r
    → In i (due now r) ↔ ((t : ℕ) × (t ≤ now) × In i (at t r))
unfolding due
In-due now i [] h = (λ k. absurd k, λ k. absurd k.2)
In-due now i ((u, ids) ∷ r) h =
    let ih = In-due now i r h.1 in
    elim (Bool-cases (ltb now u)) [
      | inl l ↦ rw l (λ k. absurd k, λ (x, le, j). absurd (later x le j (ground arith)))
      | inr l ↦ rw l (λ k. forth ih.0 (ground arith) ((In-append i ids (due now r)).0 k), back ih.1)
    ]
  where
    later : (x : ℕ) → x ≤ now → In i (at x ((u, ids) ∷ r)) → now < u → ⊥
    later x le j l =
        let z = at_later x r (All-mono x u r (omega arith) h.0) in
        let w : at x ((u, ids) ∷ r) ≡ [] = ground (arith, z) in subst (In i) w j

    forth :
        (In i (due now r) → (t : ℕ) × (t ≤ now) × In i (at t r))
        → u ≤ now
        → In i ids ⊎ In i (due now r)
        → (t : ℕ) × (t ≤ now) × In i (at t ((u, ids) ∷ r))
    forth ih l (inl a) = (u, l, ground (arith, a))
    forth ih l (inr b) =
        let (t, le, j) = ih b in
        elim (Bool-cases (t == u)) [
          | inl e ↦
              let z : at t r ≡ [] = ap (λ k. at k r) ((==_iff t u).0 e) ∙ at_later u r h.0 in
              absurd (subst (In i) z j)
          | inr e ↦ (t, le, ground (arith, j))
        ]

    back :
        ((t : ℕ) × (t ≤ now) × In i (at t r) → In i (due now r))
        → (t : ℕ) × (t ≤ now) × In i (at t ((u, ids) ∷ r))
        → In i (ids ++ due now r)
    back ih (t, le, j) = elim (Bool-cases (t == u)) [
      | inl e ↦ (In-append i ids (due now r)).1 (inl (ground (arith, j)))
      | inr e ↦ (In-append i ids (due now r)).1 (inr (ih (t, le, ground (arith, j))))
    ]

All-erase_time :
    (u t : ℕ) (r : List (ℕ × List ℕ)) → All (λ q. u < q.0) r → All (λ q. u < q.0) (erase_time t r)
unfolding erase_time
All-erase_time u t [] h = tt
All-erase_time u t ((v, ids) ∷ r) h = elim (Bool-cases (t == v)) [
  | inl e ↦ rw e h.1
  | inr e ↦ rw e (h.0, All-erase_time u t r h.1)
]

pub erase_time-IsSorted : (t : ℕ) (r : List (ℕ × List ℕ)) → IsSorted r → IsSorted (erase_time t r)
unfolding erase_time
erase_time-IsSorted t [] h = tt
erase_time-IsSorted t ((v, ids) ∷ r) h = elim (Bool-cases (t == v)) [
  | inl e ↦ rw e h.1
  | inr e ↦ rw e (All-erase_time v t r h.0, erase_time-IsSorted t r h.1)
]

All-erase_event :
    (u t i : ℕ) (r : List (ℕ × List ℕ))
    → All (λ q. u < q.0) r
    → All (λ q. u < q.0) (erase_event t i r)
unfolding erase_event
All-erase_event u t i [] h = tt
All-erase_event u t i ((v, ids) ∷ r) h = elim (Bool-cases (t == v)) [
  | inl e ↦ rw e h
  | inr e ↦ rw e (h.0, All-erase_event u t i r h.1)
]

pub erase_event-IsSorted :
    (t i : ℕ) (r : List (ℕ × List ℕ)) → IsSorted r → IsSorted (erase_event t i r)
unfolding erase_event
erase_event-IsSorted t i [] h = tt
erase_event-IsSorted t i ((v, ids) ∷ r) h = elim (Bool-cases (t == v)) [
  | inl e ↦ rw e h
  | inr e ↦ rw e (All-erase_event v t i r h.0, erase_event-IsSorted t i r h.1)
]
