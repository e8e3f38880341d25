-- ===== src/HttpParser/Map.antt =====
-- Map of src/extends/small_http_parser/small_http_parser.h: a std::map of strings, which are lists of bytes.
pub mod Sorted
use sheep_cpp.Base.{
  ℕ, ◌≡◌, refl, inl, inr, Bool, true, false, ◌&&◌, ◌||◌, Option, none, some, List, [], ◌∷◌,
  if◌then◌else◌, ◌==◌, ltb, Bool-cases, arith,
}

-- Equality and order of std::string
unfoldable pub same : List ℕ → List ℕ → Bool
same [] [] = true
same [] (y ∷ ys) = false
same (x ∷ xs) [] = false
same (x ∷ xs) (y ∷ ys) = x == y && same xs ys

unfoldable pub less : List ℕ → List ℕ → Bool
less [] [] = false
less [] (y ∷ ys) = true
less (x ∷ xs) [] = false
less (x ∷ xs) (y ∷ ys) = ltb x y || (x == y && less xs ys)

-- The pairs in the order of their keys.
abbrev pub Map : Type 0
Map = List (List ℕ × List ℕ)

-- Set: insert leaves a key that is there as it is.
unfoldable pub set : List ℕ → List ℕ → Map → Map
unfolding same less
set key value [] = (key, value) ∷ []
set key value ((k, v) ∷ kvs) =
    let rest = set key value kvs in
    if same key k
    then (k, v) ∷ kvs
    else if less key k
    then (key, value) ∷ (k, v) ∷ kvs
    else (k, v) ∷ rest

-- Get; `none`: it reads through the end of the map.
unfoldable pub get : List ℕ → Map → Option (List ℕ)
unfolding same
get key [] = none
get key ((k, v) ∷ kvs) = let rest = get key kvs in if same key k then some v else rest

pub same_refl : (a : List ℕ) → same a a ≡ true
unfolding same
same_refl [] = refl
same_refl (x ∷ xs) = let ih = same_refl xs in ground (arith, ih)

-- A key that is not there gets the value.
pub get-set :
    (key value : List ℕ) (m : Map) → get key m ≡ none → get key (set key value m) ≡ some value
unfolding get set
get-set key value [] e = rw (same_refl key) refl
get-set key value ((k, v) ∷ m) e = elim (Bool-cases (same key k)) [
  | inl t ↦ absurd (ground (arith, e, t))
  | inr t ↦
      let ih = get-set key value m (ground (arith, e, t)) in
      let r = same_refl key in ground (arith, t, ih, r)
]

-- A second value for the same key changes nothing.
pub set_twice :
    (key value other : List ℕ) (m : Map) → set key other (set key value m) ≡ set key value m
unfolding set
set_twice key value other [] = rw (same_refl key) refl
set_twice key value other ((k, v) ∷ m) = elim (Bool-cases (same key k)) [
  | inl t ↦ rw (t, set, t) refl
  | inr t ↦ elim (Bool-cases (less key k)) [
    | inl l ↦ rw (t, l, set, same_refl key) refl
    | inr l ↦ rw (t, l, set, t, l, set_twice key value other m) refl
  ]
]

-- Another key is as before.
pub get-set_other :
    (key other value : List ℕ) (m : Map)
    → same key other ≡ false
    → get key (set other value m) ≡ get key m
unfolding get set
get-set_other key other value [] e = rw e refl
get-set_other key other value ((k, v) ∷ m) e =
    let ih = get-set_other key other value m e in
    elim (Bool-cases (same other k)) [
      | inl t ↦ rw t refl
      | inr t ↦ elim (Bool-cases (less other k)) [
        | inl l ↦ rw (t, l, e) refl
        | inr l ↦ rw (t, l, ih) refl
      ]
    ]

pub same-eq : (a b : List ℕ) → same a b ≡ true → a ≡ b
unfolding same
same-eq [] [] h = refl
same-eq [] (y ∷ ys) h = cc
same-eq (x ∷ xs) [] h = cc
same-eq (x ∷ xs) (y ∷ ys) h = elim (Bool-cases (x == y)) [
  | inl e ↦ let r = same-eq xs ys (ground (arith, e, h)) in ground (arith, e, r)
  | inr e ↦ absurd (ground (arith, e, h))
]
