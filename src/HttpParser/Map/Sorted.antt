-- ===== src/HttpParser/Map/Sorted.antt =====
-- The order of the keys of Map in src/extends/small_http_parser/small_http_parser.h.
use sheep_cpp.Base.{
  ℕ, ◌≡◌, refl, inl, inr, true, false, some, none, List, [], ◌∷◌, All, Bool-cases, arith,
}
use sheep_cpp.HttpParser.Map.{Map, same, less, set, get}

less_trans : (a b c : List ℕ) → less a b ≡ true → less b c ≡ true → less a c ≡ true
unfolding less
less_trans [] [] c h k = cc
less_trans [] (y ∷ b) [] h k = k
less_trans [] (y ∷ b) (z ∷ c) h k = refl
less_trans (x ∷ a) [] c h k = cc
less_trans (x ∷ a) (y ∷ b) [] h k = k
less_trans (x ∷ a) (y ∷ b) (z ∷ c) h k = elim (Bool-cases (less a b)) [
  | inl e ↦ elim (Bool-cases (less b c)) [
    | inl f ↦ let r = less_trans a b c e f in ground (arith, h, k, r)
    | inr f ↦ ground (arith, h, k, f)
  ]
  | inr e ↦ ground (arith, h, k, e)
]

less-same : (a b : List ℕ) → less a b ≡ true → same a b ≡ false
unfolding less same
less-same [] [] h = cc
less-same [] (y ∷ b) h = refl
less-same (x ∷ a) [] h = refl
less-same (x ∷ a) (y ∷ b) h = elim (Bool-cases (less a b)) [
  | inl e ↦ let r = less-same a b e in ground (arith, h, r)
  | inr e ↦ ground (arith, h, e)
]

less_total : (a b : List ℕ) → same a b ≡ false → less a b ≡ false → less b a ≡ true
unfolding less same
less_total [] [] h k = cc
less_total [] (y ∷ b) h k = cc
less_total (x ∷ a) [] h k = refl
less_total (x ∷ a) (y ∷ b) h k = elim (Bool-cases (same a b)) [
  | inl e ↦ ground (arith, h, k, e)
  | inr e ↦ elim (Bool-cases (less a b)) [
    | inl f ↦ ground (arith, h, k, f)
    | inr f ↦ let r = less_total a b e f in ground (arith, h, k, r)
  ]
]

-- All keys are above this one.
abbrev Above : List ℕ → Map → Type 0
Above key m = All (λ p. less key p.0 ≡ true) m

-- The keys rise, as in every std::map.
abbrev pub IsSorted : Map → Type 0
IsSorted [] = Unit
IsSorted ((k, v) ∷ m) = Above k m × IsSorted m

Above-trans : (a b : List ℕ) (m : Map) → less a b ≡ true → Above b m → Above a m
Above-trans a b [] h v = tt
Above-trans a b ((k, w) ∷ m) h v = (less_trans a b k h v.0, Above-trans a b m h v.1)

Above-set :
    (a key value : List ℕ) (m : Map) → less a key ≡ true → Above a m → Above a (set key value m)
unfolding set
Above-set a key value [] h v = (h, tt)
Above-set a key value ((k, w) ∷ m) h v = elim (Bool-cases (same key k)) [
  | inl e ↦ rw e v
  | inr e ↦ elim (Bool-cases (less key k)) [
    | inl f ↦ rw (e, f) (h, v)
    | inr f ↦ rw (e, f) (v.0, Above-set a key value m h v.1)
  ]
]

get-Above : (key : List ℕ) (m : Map) → Above key m → get key m ≡ none
unfolding get
get-Above key [] v = refl
get-Above key ((k, w) ∷ m) v =
    let e = less-same key k v.0 in let r = get-Above key m v.1 in ground (arith, e, r)

pub set-IsSorted : (key value : List ℕ) (m : Map) → IsSorted m → IsSorted (set key value m)
unfolding set
set-IsSorted key value [] s = (tt, tt)
set-IsSorted key value ((k, v) ∷ m) s = elim (Bool-cases (same key k)) [
  | inl e ↦ rw e s
  | inr e ↦ elim (Bool-cases (less key k)) [
    | inl f ↦ rw (e, f) ((f, Above-trans key k m f s.0), s)
    | inr f ↦
        rw (e, f) (Above-set k key value m (less_total key k e f) s.0, set-IsSorted key value m s.1)
  ]
]

-- A key that is there keeps its value.
pub get-set_kept :
    (key value w : List ℕ) (m : Map)
    → IsSorted m
    → get key m ≡ some w
    → get key (set key value m) ≡ some w
unfolding set get
get-set_kept key value w [] s e = cc
get-set_kept key value w ((k, v) ∷ m) s e = elim (Bool-cases (same key k)) [
  | inl t ↦ ground (arith, t, e)
  | inr t ↦
      let later : get key m ≡ some w = ground (arith, t, e) in
      elim (Bool-cases (less key k)) [
        | inl f ↦
            let no = get-Above key m (Above-trans key k m f s.0) in
            absurd (ground (arith, no, later))
        | inr f ↦ let ih = get-set_kept key value w m s.1 later in ground (arith, t, f, ih)
      ]
]
