-- ===== src/Base/Lists.antt =====
-- Lists over the native numbers, membership by recursion, and maps as functions.
use Prim.Native.Nat.{ℕ, zero, suc, ◌+◌, ◌-◌, ◌≤◌, ◌<◌, min}
use mathlib.Core.Path.{◌≡◌, refl, ap, sym, subst}
use mathlib.Core.Logic.{◌⊎◌, ◌↔◌, ◌≢◌, inl, inr}
use mathlib.Core.List.{List, [], ◌∷◌, ◌++◌}
use native.Mathlib.Omega.{arith}
use native.Mathlib.Nat.{zero-add, suc-add}
use sheep_cpp.Base.Tests.{◌==◌, ==_iff, if◌then◌else◌, Bool-cases}

module _ {ℓ} {A : Type ℓ} where
  abbrev pub length : List A → ℕ
  length [] = 0
  length (x ∷ xs) = suc (length xs)

  abbrev pub take : ℕ → List A → List A
  take zero xs = []
  take (suc n) [] = []
  take (suc n) (x ∷ xs) = x ∷ take n xs

  abbrev pub drop : ℕ → List A → List A
  drop zero xs = xs
  drop (suc n) [] = []
  drop (suc n) (x ∷ xs) = drop n xs

  abbrev pub replicate : ℕ → A → List A
  replicate zero a = []
  replicate (suc n) a = a ∷ replicate n a

  pub take-append : (xs ys : List A) → take (length xs) (xs ++ ys) ≡ xs
  take-append [] ys = refl
  take-append (x ∷ xs) ys = ap (◌∷◌ x) (take-append xs ys)

  pub drop-append : (xs ys : List A) → drop (length xs) (xs ++ ys) ≡ ys
  drop-append [] ys = refl
  drop-append (x ∷ xs) ys = drop-append xs ys

  pub take_at : (n : ℕ) (xs ys : List A) → n ≡ length xs → take n (xs ++ ys) ≡ xs
  take_at n xs ys e = rw e (take-append xs ys)

  pub drop_at : (n : ℕ) (xs ys : List A) → n ≡ length xs → drop n (xs ++ ys) ≡ ys
  drop_at n xs ys e = rw e (drop-append xs ys)

  pub take-append_le : (n : ℕ) (xs ys : List A) → n ≤ length xs → take n (xs ++ ys) ≡ take n xs
  take-append_le zero xs ys h = refl
  take-append_le (suc n) [] ys h = absurd (omega arith)
  take-append_le (suc n) (x ∷ xs) ys h = ap (◌∷◌ x) (take-append_le n xs ys (omega arith))

  pub take-take_le : (k n : ℕ) (xs : List A) → k ≤ n → take k (take n xs) ≡ take k xs
  take-take_le zero n xs h = refl
  take-take_le (suc k) zero xs h = absurd (omega arith)
  take-take_le (suc k) (suc n) [] h = refl
  take-take_le (suc k) (suc n) (x ∷ xs) h = ap (◌∷◌ x) (take-take_le k n xs (omega arith))

  pub take-add : (k n : ℕ) (xs : List A) → take k xs ++ take n (drop k xs) ≡ take (k + n) xs
  take-add zero n xs = rw zero-add
  take-add (suc k) n [] = rw suc-add (take-nil n)
    where
      take-nil : (m : ℕ) → take m [] ≡ []
      take-nil zero = refl
      take-nil (suc m) = refl
  take-add (suc k) n (x ∷ xs) = rw suc-add (ap (◌∷◌ x) (take-add k n xs))

  pub drop-drop : (k n : ℕ) (xs : List A) → drop n (drop k xs) ≡ drop (k + n) xs
  drop-drop zero n xs = rw zero-add
  drop-drop (suc k) n [] = rw suc-add (drop-nil n)
    where
      drop-nil : (m : ℕ) → drop m [] ≡ []
      drop-nil zero = refl
      drop-nil (suc m) = refl
  drop-drop (suc k) n (x ∷ xs) = rw suc-add (drop-drop k n xs)

  pub take-all : (n : ℕ) (xs : List A) → length xs ≤ n → take n xs ≡ xs
  take-all zero [] h = refl
  take-all zero (x ∷ xs) h = absurd (omega arith)
  take-all (suc n) [] h = refl
  take-all (suc n) (x ∷ xs) h = ap (◌∷◌ x) (take-all n xs (omega arith))

  pub drop-all : (n : ℕ) (xs : List A) → length xs ≤ n → drop n xs ≡ []
  drop-all zero [] h = refl
  drop-all zero (x ∷ xs) h = absurd (omega arith)
  drop-all (suc n) [] h = refl
  drop-all (suc n) (x ∷ xs) h = drop-all n xs (omega arith)

  pub length-append : (xs ys : List A) → length (xs ++ ys) ≡ length xs + length ys
  length-append [] ys = omega arith
  length-append (x ∷ xs) ys = omega (arith, length-append xs ys)

  pub length-take : (n : ℕ) (xs : List A) → length (take n xs) ≡ min n (length xs)
  length-take zero xs = omega arith
  length-take (suc n) [] = omega arith
  length-take (suc n) (x ∷ xs) = omega (arith, length-take n xs)

  pub length-drop : (n : ℕ) (xs : List A) → length (drop n xs) ≡ length xs - n
  length-drop zero xs = omega arith
  length-drop (suc n) [] = omega arith
  length-drop (suc n) (x ∷ xs) = omega (arith, length-drop n xs)

  pub take-append-drop : (n : ℕ) (xs : List A) → take n xs ++ drop n xs ≡ xs
  take-append-drop zero xs = refl
  take-append-drop (suc n) [] = refl
  take-append-drop (suc n) (x ∷ xs) = ap (◌∷◌ x) (take-append-drop n xs)

  abbrev pub All {κ} : (A → Type κ) → List A → Type κ
  All P [] = Unit
  All P (x ∷ xs) = P x × All P xs

  pub All-append {κ} : (P : A → Type κ) (xs ys : List A) → All P xs → All P ys → All P (xs ++ ys)
  All-append P [] ys h k = k
  All-append P (x ∷ xs) ys h k = (h.0, All-append P xs ys h.1 k)

module _ {A : Type 0} where
  -- Membership that computes.
  abbrev pub In : A → List A → Type 0
  In x [] = ⊥
  In x (y ∷ ys) = (x ≡ y) ⊎ In x ys

  abbrev pub Distinct : List A → Type 0
  Distinct [] = Unit
  Distinct (x ∷ xs) = ¬ In x xs × Distinct xs

  pub In-ne : {k x : A} (xs : List A) → In k xs → ¬ In x xs → k ≢ x
  In-ne xs i out e = out (subst (λ z. In z xs) e i)

  pub In-append : (x : A) (xs ys : List A) → In x (xs ++ ys) ↔ (In x xs ⊎ In x ys)
  In-append x [] ys = (λ h. inr h, λ h. elim h [ inl b ↦ absurd b | inr b ↦ b ])
  In-append x (y ∷ xs) ys = (
    λ h. elim h [
      | inl e ↦ inl (inl e)
      | inr r ↦ elim ((In-append x xs ys).0 r) [ inl a ↦ inl (inr a) | inr b ↦ inr b ]
    ],
    λ h. elim h [
      | inl (inl e) ↦ inl e
      | inl (inr a) ↦ inr ((In-append x xs ys).1 (inl a))
      | inr b ↦ inr ((In-append x xs ys).1 (inr b))
    ],
  )

  -- A member splits the list at its place.
  pub In-split :
      (x : A) (xs : List A) → In x xs → (us : List A) × (vs : List A) × (xs ≡ us ++ x ∷ vs)
  In-split x [] h = absurd h
  In-split x (y ∷ ys) (inl e) = ([], ys, ap (λ z. z ∷ ys) (sym e))
  In-split x (y ∷ ys) (inr h) = let (us, vs, e) = In-split x ys h in (y ∷ us, vs, ap (◌∷◌ y) e)

  pub Distinct-middle :
      (x : A) (us vs : List A) → Distinct (us ++ x ∷ vs) → Distinct (us ++ vs) × (¬ In x (us ++ vs))
  Distinct-middle x [] vs d = (d.1, d.0)
  Distinct-middle x (u ∷ us) vs d =
      let (rest, out) = Distinct-middle x us vs d.1 in
      (
        (λ h. d.0 (grow h), rest),
        λ h. elim h [
          | inl e ↦ d.0 ((In-append u us (x ∷ vs)).1 (inr (inl (sym e))))
          | inr r ↦ out r
        ],
      )
    where
      grow : In u (us ++ vs) → In u (us ++ x ∷ vs)
      grow h = elim ((In-append u us vs).0 h) [
        | inl a ↦ (In-append u us (x ∷ vs)).1 (inl a)
        | inr b ↦ (In-append u us (x ∷ vs)).1 (inr (inr b))
      ]

pub All-of-In : {A : Type 0} (P : A → Type 0) (xs : List A) → ((x : A) → In x xs → P x) → All P xs
All-of-In P [] h = tt
All-of-In P (x ∷ xs) h = (h x (inl refl), All-of-In P xs (λ y i. h y (inr i)))

-- The list with every occurrence of a number taken out.
abbrev pub without : ℕ → List ℕ → List ℕ
without x [] = []
without x (y ∷ ys) = let rest = without x ys in if y == x then rest else y ∷ rest

pub In-without : (z x : ℕ) (xs : List ℕ) → In z (without x xs) ↔ (In z xs × (z ≢ x))
In-without z x [] = (λ h. absurd h, λ h. absurd h.0)
In-without z x (y ∷ ys) =
    let (f, g) = In-without z x ys in (λ h. ground (arith, f), λ h. ground (arith, g))

pub without-eq_of_not_In : (x : ℕ) (xs : List ℕ) → ¬ In x xs → without x xs ≡ xs
without-eq_of_not_In x [] h = refl
without-eq_of_not_In x (y ∷ ys) h =
    let r = without-eq_of_not_In x ys (λ i. h (inr i)) in ground (arith, λ (e : x ≡ y). h (inl e))

pub without-middle :
    (x : ℕ) (us vs : List ℕ) → ¬ In x (us ++ vs) → without x (us ++ x ∷ vs) ≡ us ++ vs
without-middle x [] vs h = let r = without-eq_of_not_In x vs h in ground arith
without-middle x (u ∷ us) vs h =
    let r = without-middle x us vs (λ i. h (inr i)) in ground (arith, λ (e : x ≡ u). h (inl e))

pub Distinct-without : (x : ℕ) (xs : List ℕ) → Distinct xs → Distinct (without x xs)
Distinct-without x [] d = tt
Distinct-without x (y ∷ ys) d = elim (Bool-cases (y == x)) [
  | inl e ↦ rw e (Distinct-without x ys d.1)
  | inr e ↦ rw e (λ h. d.0 ((In-without y x ys).0 h).0, Distinct-without x ys d.1)
]

length-without-le : (x : ℕ) (xs : List ℕ) → Distinct xs → length xs ≤ suc (length (without x xs))
length-without-le x [] d = omega arith
length-without-le x (y ∷ ys) d = elim (Bool-cases (y == x)) [
  | inl e ↦
      let out : ¬ In x ys = subst (λ z. ¬ In z ys) ((==_iff y x).0 e) d.0 in
      rw (e, without-eq_of_not_In x ys out) (omega arith)
  | inr e ↦ rw e (omega (arith, length-without-le x ys d.1))
]

-- Different numbers below `n` are at most `n` many.
pub length-le_of_Distinct :
    (n : ℕ) (xs : List ℕ) → Distinct xs → ((x : ℕ) → In x xs → x < n) → length xs ≤ n
length-le_of_Distinct zero [] d b = omega arith
length-le_of_Distinct zero (x ∷ xs) d b = absurd (omega (arith, b x (inl refl)))
length-le_of_Distinct (suc n) xs d b =
    let r =
      length-le_of_Distinct n (without n xs) (Distinct-without n xs d)
        (λ x i. let (j, k) = (In-without x n xs).0 i in let l = b x j in omega arith) in
    omega (arith, length-without-le n xs d)

pub Distinct-snoc : (xs : List ℕ) (x : ℕ) → Distinct xs → ¬ In x xs → Distinct (xs ++ x ∷ [])
Distinct-snoc [] x d o = (λ i. i, tt)
Distinct-snoc (y ∷ ys) x d o = (
  λ i. elim ((In-append y ys (x ∷ [])).0 i) [
    | inl j ↦ d.0 j
    | inr (inl q) ↦ o (inl (sym q))
    | inr (inr b) ↦ b
  ],
  Distinct-snoc ys x d.1 (λ i. o (inr i)),
)
