-- ===== src/Config/Toml/Fits.antt =====
-- What the TOML library promises, and which elements
-- src/extends/small_config/small_toml/small_toml.h can read back.
use sheep_cpp.Base.{
  ℕ, ◌^◌, ◌<◌, ◌≡◌, ◌≢◌, Bool, true, false, if◌then◌else◌, some, List, [], ◌∷◌, In, ltb, ◌==◌,
}
use sheep_cpp.Config.Json.Fits.{IsWidth}
use sheep_cpp.Config.Toml.{Toml, Field, number, boolean, real, text, nested, Element, end, field}

-- A letter, a digit, `_` or `-`: what a bare key is made of. find takes other keys apart.
abbrev bare_byte : ℕ → Bool
bare_byte x =
    if x == 45
    then true
    else (if x == 95
        then true
        else (if ltb x 48
            then false
            else (if ltb x 58
                then true
                else (if ltb x 65
                    then false
                    else (if ltb x 91 then true else (if ltb x 97 then false else ltb x 123))))))

abbrev pub bare : List ℕ → Bool
bare [] = false
bare (x ∷ []) = bare_byte x
bare (x ∷ y ∷ xs) = let rest = bare (y ∷ xs) in if bare_byte x then rest else false

-- What toml::Value documents: a value of no type becomes a table when a child is set, a table has
-- the children that were set, under bare keys, and a value is read as what it was made from.
pub record IsToml {V : Type 0} (r : Toml V) : Type 0 where
  pub is_table : V → Bool
  pub is_table-null : is_table r.null ≡ true
  pub is_table-set_child :
      (n : List ℕ) (v o : V) → is_table o ≡ true → is_table (r.set_child n v o) ≡ true
  pub find-set_child :
      (n : List ℕ) (v o : V)
      → is_table o ≡ true
      → bare n ≡ true
      → r.find n (r.set_child n v o) ≡ some v
  pub find-set_child_other :
      (n m : List ℕ) (v o : V)
      → is_table o ≡ true
      → bare n ≡ true
      → bare m ≡ true
      → m ≢ n
      → r.find m (r.set_child n v o) ≡ r.find m o
  pub as_int-of_int : (w x : ℕ) → IsWidth w → x < 2 ^ w → r.as_int w (r.of_int w x) ≡ some x
  pub as_bool-of_bool : (b : Bool) → r.as_bool (r.of_bool b) ≡ some b
  pub as_double-of_double : (d : ℕ) → d < 2 ^ 64 → r.as_double (r.of_double d) ≡ some d
  pub as_string-of_string : (s : List ℕ) → r.as_string (r.of_string s) ≡ some s

abbrev pub names : Element → List (List ℕ)
names end = []
names (field n f e) = n ∷ names e

-- The element `b` that is read into has the members of `e`, of the same types; the names are bare
-- keys, none is there twice, and numbers have 32 or 64 bits.
unfoldable mutual
  pub Fits : Element → Element → Type 0
  Fits end end = Unit
  Fits (field n f e) (field m g b) =
      (n ≡ m) × (bare n ≡ true) × (¬ In n (names e)) × FitsField f g × Fits e b
  Fits _ _ = ⊥

  pub FitsField : Field → Field → Type 0
  FitsField (number k w x) (number l v y) = (k ≡ l) × (w ≡ v) × IsWidth w × (x < 2 ^ w)
  FitsField (boolean b) (boolean c) = Unit
  FitsField (real d) (real c) = d < 2 ^ 64
  FitsField (text s) (text t) = Unit
  FitsField (nested e) (nested b) = Fits e b
  FitsField _ _ = ⊥
