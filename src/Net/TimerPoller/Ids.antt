-- ===== src/Net/TimerPoller/Ids.antt =====
-- The ids that src/net/common/poller/timer_poller.cpp keeps for one time.
use sheep_cpp.Base.{
  ℕ, ◌≡◌, ◌≢◌, ◌↔◌, sym, subst, ◌∙◌, inl, inr, ◌⊎◌, List, [], ◌∷◌, ◌==◌, ltb, In, Distinct, ==_iff,
  Bool-cases, arith,
}
use sheep_cpp.Net.TimerPoller.{insert_id, erase_id}

pub In-insert_id : (z i : ℕ) (js : List ℕ) → In z (insert_id i js) ↔ ((z ≡ i) ⊎ In z js)
unfolding insert_id
In-insert_id z i [] = (λ k. k, λ k. k)
In-insert_id z i (j ∷ js) =
    let (f, g) = In-insert_id z i js in (λ k. ground (arith, f), λ k. ground (arith, g))

pub insert_id-Distinct : (i : ℕ) (js : List ℕ) → ¬ In i js → Distinct js → Distinct (insert_id i js)
unfolding insert_id
insert_id-Distinct i [] o d = (o, tt)
insert_id-Distinct i (j ∷ js) o d =
    let e = insert_id-Distinct i js (λ k. o (inr k)) d.1 in
    elim (Bool-cases (ltb i j)) [
      | inl l ↦ rw l (o, d)
      | inr l ↦ elim (Bool-cases (i == j)) [
        | inl g ↦ rw (l, g) d
        | inr g ↦
            rw (l, g)
              (λ k. elim ((In-insert_id j i js).0 k) [ inl x ↦ o (inl (sym x)) | inr x ↦ d.0 x ], e)
      ]
    ]

pub In-erase_id : (z i : ℕ) (js : List ℕ) → Distinct js → In z (erase_id i js) ↔ (In z js × (z ≢ i))
unfolding erase_id
In-erase_id z i [] d = (λ k. absurd k, λ k. absurd k.0)
In-erase_id z i (j ∷ js) d = elim (Bool-cases (i == j)) [
  | inl e ↦
      let q : i ≡ j = (==_iff i j).0 e in
      rw e (
        λ k. (inr k, λ x. d.0 (subst (λ y. In y js) (x ∙ q) k)),
        λ (k, n). elim k [ inl x ↦ absurd (n (x ∙ sym q)) | inr x ↦ x ],
      )
  | inr e ↦
      let (f, g) = In-erase_id z i js d.1 in rw e (λ k. ground (arith, f), λ k. ground (arith, g))
]

pub erase_id-Distinct : (i : ℕ) (js : List ℕ) → Distinct js → Distinct (erase_id i js)
unfolding erase_id
erase_id-Distinct i [] d = tt
erase_id-Distinct i (j ∷ js) d = elim (Bool-cases (i == j)) [
  | inl e ↦ rw e d.1
  | inr e ↦ rw e (λ k. d.0 ((In-erase_id j i js d.1).0 k).0, erase_id-Distinct i js d.1)
]
