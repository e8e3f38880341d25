-- ===== src/Base/Choice.antt =====
-- Taking one element out of a list, whichever it is, and functions changed at one argument.
use Prim.Native.Nat.{ℕ, zero, suc}
use mathlib.Core.Path.{◌≡◌, refl, ap, sym, subst, ◌∙◌}
use mathlib.Core.Logic.{◌⊎◌, ◌↔◌, ◌≢◌, inl, inr}
use mathlib.Core.Option.{Option, none, some}
use mathlib.Core.List.{List, [], ◌∷◌, map}
use native.Mathlib.Omega.{arith}
use sheep_cpp.Base.Tests.{◌==◌, ==_iff, if◌then◌else◌, Bool-cases, Option-cases}
use sheep_cpp.Base.Lists.{length, In, In-ne, Distinct, without, without-eq_of_not_In}

-- A function changed at one argument.
abbrev pub set_at {ℓ} : {A : Type ℓ} → ℕ → A → (ℕ → A) → ℕ → A
set_at i a f j = if j == i then a else f j

pub same_or_not : (a b : ℕ) → (a ≡ b) ⊎ (a ≢ b)
same_or_not a b = ground arith

-- A choice among the elements: the one at `k`, or the last.
unfoldable pub take_one {ℓ} : {A : Type ℓ} → ℕ → List A → Option (A × List A)
take_one k [] = none
take_one zero (x ∷ xs) = some (x, xs)
take_one (suc k) (x ∷ xs) = elim (take_one k xs) [
  | none ↦ some (x, xs)
  | some (y, ys) ↦ some (y, x ∷ ys)
]

pub length-without_of_In :
    (x : ℕ) (xs : List ℕ) → Distinct xs → In x xs → suc (length (without x xs)) ≡ length xs
length-without_of_In x [] d i = absurd i
length-without_of_In x (y ∷ ys) d i = elim (Bool-cases (y == x)) [
  | inl e ↦
      let o : ¬ In x ys = subst (λ z. ¬ In z ys) ((==_iff y x).0 e) d.0 in
      rw (e, without-eq_of_not_In x ys o) refl
  | inr e ↦
      let j : In x ys = elim i [ inl q ↦ absurd (ground (arith, e, q)) | inr j ↦ j ] in
      rw e (ap suc (length-without_of_In x ys d.1 j))
]

-- What a choice takes out of a list, and what it leaves.
abbrev pub Takes : List ℕ → ℕ → List ℕ → Type 0
Takes xs y ys = In y xs × Distinct ys × ((z : ℕ) → In z ys ↔ (In z xs × (z ≢ y)))

pub take_one-Takes :
    (k : ℕ) (x : ℕ) (xs : List ℕ)
    → Distinct (x ∷ xs)
    → (y : ℕ) × (ys : List ℕ) × (take_one k (x ∷ xs) ≡ some (y, ys)) × Takes (x ∷ xs) y ys
unfolding take_one
take_one-Takes zero x xs d = (
  x,
  xs,
  refl,
  (
    inl refl,
    d.1,
    λ z. (λ i. (inr i, In-ne xs i d.0), λ (i, n). elim i [ inl e ↦ absurd (n e) | inr j ↦ j ]),
  ),
)
take_one-Takes (suc k) x [] d = (
  x,
  [],
  refl,
  (inl refl, tt, λ z. (λ i. absurd i, λ (i, n). elim i [ inl e ↦ n e | inr j ↦ j ])),
)
take_one-Takes (suc k) x (w ∷ xs) d =
    let (y, ys, e, (i, g, h)) = take_one-Takes k w xs d.1 in
    (
      y,
      x ∷ ys,
      rw e refl,
      (
        inr i,
        (λ j. d.0 ((h x).0 j).0, g),
        λ z. (
          λ j. elim j [
            | inl q ↦ (inl q, λ r. d.0 (subst (λ v. In v (w ∷ xs)) (sym r ∙ q) i))
            | inr j' ↦ let (a, b) = (h z).0 j' in (inr a, b)
          ],
          λ (j, n). elim j [ inl q ↦ inl q | inr j' ↦ inr ((h z).1 (j', n)) ],
        ),
      ),
    )

-- The first element with the key `id`, and the others.
unfoldable pub take_by {ℓ} : {A : Type ℓ} → (A → ℕ) → ℕ → List A → Option (A × List A)
take_by key id [] = none
take_by key id (x ∷ xs) =
    let rest = take_by key id xs in
    if key x == id
    then some (x, xs)
    else elim rest [ none ↦ none | some (y, ys) ↦ some (y, x ∷ ys) ]

-- The first of a list, or one of the rest.
Takes-head : (x : ℕ) (xs : List ℕ) → Distinct (x ∷ xs) → Takes (x ∷ xs) x xs
Takes-head x xs d = (
  inl refl,
  d.1,
  λ z. (
    λ i. (inr i, λ e. d.0 (subst (λ y. In y xs) e i)),
    λ (i, n). elim i [ inl e ↦ absurd (n e) | inr j ↦ j ],
  ),
)

Takes-tail :
    (x y : ℕ) (xs ys : List ℕ) → Distinct (x ∷ xs) → Takes xs y ys → Takes (x ∷ xs) y (x ∷ ys)
Takes-tail x y xs ys d (i, g, h) = (
  inr i,
  (λ j. d.0 ((h x).0 j).0, g),
  λ z. (
    λ j. elim j [
      | inl e ↦ (inl e, λ f. d.0 (subst (λ w. In w xs) (sym f ∙ e) i))
      | inr k ↦ let (a, b) = (h z).0 k in (inr a, b)
    ],
    λ (j, n). elim j [ inl e ↦ inl e | inr k ↦ inr ((h z).1 (k, n)) ],
  ),
)

pub take_by-Takes :
    {A : Type 0} (key : A → ℕ) (id : ℕ) (xs : List A) (y : A) (ys : List A)
    → Distinct (map key xs)
    → take_by key id xs ≡ some (y, ys)
    → Takes (map key xs) id (map key ys)
unfolding take_by
take_by-Takes key id [] y ys d q = absurd (ground (arith, q))
take_by-Takes key id (x ∷ xs) y ys d q = elim (Bool-cases (key x == id)) [
  | inl e ↦
      let f : xs ≡ ys = ground (arith, q, e) in
      let g : key x ≡ id = ground (arith, e) in
      subst (λ l. Takes (key x ∷ map key xs) id (map key l)) f
        (subst (λ i. Takes (key x ∷ map key xs) i (map key xs)) g
          (Takes-head (key x) (map key xs) d))
  | inr e ↦ elim (Option-cases (take_by key id xs)) [
    | inl f ↦ absurd (ground (arith, q, e, f))
    | inr ((z, zs), f) ↦
        let g : x ∷ zs ≡ ys = ground (arith, q, e, f) in
        subst (λ l. Takes (key x ∷ map key xs) id (map key l)) g
          (Takes-tail (key x) id (map key xs) (map key zs) d (take_by-Takes key id xs z zs d.1 f))
  ]
]
