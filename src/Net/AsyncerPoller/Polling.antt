-- ===== src/Net/AsyncerPoller/Polling.antt =====
-- What Poll of src/net/common/poller/asyncer_poller.cpp returns.
use sheep_cpp.Base.{
  ℕ, ◌≡◌, ◌≢◌, refl, sym, ap, subst, ◌∙◌, inl, inr, Bool, true, false, Option, none, some, List, [],
  ◌∷◌, ◌==◌, In, Distinct, ==_iff, Bool-cases, Option-cases, arith,
}
use sheep_cpp.Net.AsyncerPoller.{AsyncerPoller, poll, poll_all}
use sheep_cpp.Net.Event.{Event, Store, set_read_able, put_event}
use sheep_cpp.Net.AsyncerPoller.Order.{ids_of, Watches}

-- The events of `ids` that still exist.
abbrev pub alive : Store → List ℕ → List ℕ
alive store [] = []
alive store (i ∷ ids) =
    let rest = alive store ids in elim (store i) [ none ↦ rest | some e ↦ i ∷ rest ]

abbrev is_some : Option Event → Bool
is_some none = false
is_some (some e) = true

abbrev pub exists : Store → ℕ → Bool
exists store i = is_some (store i)

alive_same :
    (s t : Store) (ids : List ℕ) → ((i : ℕ) → exists s i ≡ exists t i) → alive s ids ≡ alive t ids
alive_same s t [] h = refl
alive_same s t (i ∷ ids) h =
    let r = alive_same s t ids h in
    let g = h i in
    elim (Option-cases (s i)) [
      | inl e ↦ elim (Option-cases (t i)) [
        | inl f ↦ ground (arith, e, f, r)
        | inr (b, f) ↦ ground (arith, e, f, g)
      ]
      | inr (a, e) ↦ elim (Option-cases (t i)) [
        | inl f ↦ ground (arith, e, f, g)
        | inr (b, f) ↦ ground (arith, e, f, r)
      ]
    ]

-- What Poll makes of the store: the events of `ids` are readable, the others are as they were.
abbrev pub Marked : List ℕ → Store → Store → Type 0
Marked ids s t =
    (j : ℕ)
    → (In j ids → (e : Event) → s j ≡ some e → t j ≡ some (set_read_able e))
      × (¬ In j ids → t j ≡ s j)

put-exists :
    (store : Store) (i : ℕ) (v w : Event)
    → store i ≡ some v
    → (j : ℕ) → exists store j ≡ exists (put_event store i w) j
put-exists store i v w e j = elim (Bool-cases (j == i)) [
  | inl b ↦
      let c = subst (λ k. store k ≡ some v) (sym ((==_iff j i).0 b)) e in
      let p : put_event store i w j ≡ some w = ground arith in ap is_some c ∙ sym (ap is_some p)
  | inr b ↦ let p : put_event store i w j ≡ store j = ground arith in sym (ap is_some p)
]

poll_all_lem :
    (q : List (ℕ × ℕ)) (store : Store)
    → Distinct (ids_of q)
    → ((poll_all q store).0 ≡ alive store (ids_of q)) × Marked (ids_of q) store (poll_all q store).1
unfolding poll_all
poll_all_lem [] store d = (refl, λ j. (λ h. absurd h, λ h. refl))
poll_all_lem ((n, i) ∷ q) store d = elim (Option-cases (store i)) [
  | inl e ↦
      let (f, m) = poll_all_lem q store d.1 in
      (
        ground (arith, e, f),
        λ j.
            let (x, y) = m j in
            (
              λ h. λ v. λ g. elim h [
                | inl z ↦ absurd (ground (arith, e, z, g))
                | inr z ↦ let k = x z v g in ground (arith, e, k)
              ],
              λ h. let k = y (λ z. h (inr z)) in ground (arith, e, k),
            ),
      )
  | inr (v, e) ↦
      let st = put_event store i (set_read_able v) in
      let (f, m) = poll_all_lem q st d.1 in
      let same = alive_same store st (ids_of q) (put-exists store i v (set_read_able v) e) in
      (
        ground (arith, e, f, same),
        λ j.
            let (x, y) = m j in
            (
              λ h. λ u. λ g. elim (Bool-cases (j == i)) [
                | inl b ↦
                    let k = y (subst (λ z. ¬ In z (ids_of q)) (sym ((==_iff j i).0 b)) d.0) in
                    let c = subst (λ k. store k ≡ some v) (sym ((==_iff j i).0 b)) e in
                    ground (arith, e, k, c, g)
                | inr b ↦ elim h [
                  | inl z ↦ absurd (ground arith)
                  | inr z ↦ let k = x z u (ground (arith, g)) in ground (arith, e, k)
                ]
              ],
              λ h.
                  let k = y (λ z. h (inr z)) in
                  let c : j ≢ i = λ z. h (inl z) in ground (arith, e, k, c),
            ),
      )
]

-- Poll of an asyncer poller that watches the events ids returns those that still exist, in their
-- order, makes each of them readable and changes no other event.
pub poll-Watches :
    (p : AsyncerPoller) (ids : List ℕ) (store : Store)
    → Watches p ids
    → ((poll p store).0 ≡ alive store ids) × Marked ids store (poll p store).1
unfolding poll
poll-Watches p ids store w =
    subst
      (λ l.
        ((poll_all p.events store).0 ≡ alive store l) × Marked l store (poll_all p.events store).1)
      w.view (poll_all_lem p.events store (subst Distinct (sym w.view) w.distinct))
