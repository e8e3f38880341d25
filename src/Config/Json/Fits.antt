-- ===== src/Config/Json/Fits.antt =====
-- What the JSON library promises, and which elements src/extends/small_config/small_json/small_json.h
-- can read back.
use sheep_cpp.Base.{ℕ, ◌^◌, ◌<◌, ◌≡◌, ◌≢◌, ◌⊎◌, Bool, true, none, some, List, [], ◌∷◌, ◌++◌, In}
use sheep_cpp.Config.{
  unsigned, signed, Field, number, boolean, text, nested, vector, Item, whole, flag, chars, sub,
  Items, nil, cons, Element, end, field, c_str, to_int64,
}
use sheep_cpp.Config.Json.{Rapidjson}

-- What rapidjson documents: an object has the members that were added, an array the values that
-- were pushed, in order, and a value is read as what it was made from, if the type has it.
pub record IsRapidjson {V : Type 0} (r : Rapidjson V) : Type 0 where
  pub is_object-object : r.is_object r.object ≡ true
  pub is_object-add_member :
      (n : List ℕ) (v o : V) → r.is_object (r.add_member n v o) ≡ r.is_object o
  pub member-object : (n : List ℕ) → r.member n r.object ≡ none
  pub member-add_member :
      (n : List ℕ) (v o : V)
      → r.is_object o ≡ true
      → r.member n o ≡ none
      → r.member n (r.add_member n v o) ≡ some v
  pub member-add_member_other :
      (n m : List ℕ) (v o : V) → m ≢ n → r.member m (r.add_member n v o) ≡ r.member m o
  pub elements-array : r.elements r.array ≡ some []
  pub elements-push_back :
      (v a : V) (vs : List V)
      → r.elements a ≡ some vs
      → r.elements (r.push_back v a) ≡ some (vs ++ v ∷ [])
  pub get_int-of_int64 : (x : ℕ) → x < 2 ^ 64 → r.get_int 64 (r.of_int64 x) ≡ some x
  pub get_int-of_int32 :
      (x : ℕ)
      → x < 2 ^ 32
      → r.get_int 32 (r.of_int64 (to_int64 signed 32 x)) ≡ some (to_int64 signed 32 x)
  pub get_int-of_uint64 : (x : ℕ) → x < 2 ^ 63 → r.get_int 64 (r.of_uint64 x) ≡ some x
  pub get_bool-of_bool : (b : Bool) → r.get_bool (r.of_bool b) ≡ some b
  pub get_string-of_string : (s : List ℕ) → r.get_string (r.of_string s) ≡ some s

abbrev pub IsWidth : ℕ → Type 0
IsWidth w = (w ≡ 32) ⊎ (w ≡ 64)

abbrev pub names : Element → List (List ℕ)
names end = []
names (field n f e) = n ∷ names e

-- The element `b` that is read into has the members of `e`, of the same types and with empty
-- vectors, and no name twice. Numbers have 32 or 64 bits, the strings of `e` outside vectors have
-- no byte 0, and an unsigned number in a vector is below 2 ^ 63.
unfoldable mutual
  pub Fits : Element → Element → Type 0
  Fits end end = Unit
  Fits (field n f e) (field m g b) = (n ≡ m) × (¬ In n (names e)) × FitsField f g × Fits e b
  Fits _ _ = ⊥

  pub FitsField : Field → Field → Type 0
  FitsField (number k w x) (number l v y) = (k ≡ l) × (w ≡ v) × IsWidth w × (x < 2 ^ w)
  FitsField (boolean b) (boolean c) = Unit
  FitsField (text s) (text t) = c_str s ≡ s
  FitsField (nested e) (nested b) = Fits e b
  FitsField (vector t xs) (vector u ys) = (t ≡ u) × (ys ≡ nil) × FitsItems xs t
  FitsField _ _ = ⊥

  pub FitsItems : Items → Item → Type 0
  FitsItems nil t = Unit
  FitsItems (cons x xs) t = FitsItem x t × FitsItems xs t

  pub FitsItem : Item → Item → Type 0
  FitsItem (whole k w x) (whole l v y) =
      (k ≡ l) × (w ≡ v) × IsWidth w × (x < 2 ^ w) × ((k ≡ unsigned) → x < 2 ^ 63)
  FitsItem (flag b) (flag c) = Unit
  FitsItem (chars s) (chars t) = Unit
  FitsItem (sub e) (sub b) = Fits e b
  FitsItem _ _ = ⊥
