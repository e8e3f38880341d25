-- ===== src/Config/Toml/Tests.antt =====
-- Elements of src/extends/small_config through a concrete TOML library.
use sheep_cpp.Base.{
  ℕ, ◌≡◌, ◌≢◌, refl, inl, inr, Bool, true, false, Option, none, some, List, [], ◌∷◌, if◌then◌else◌,
  ◌==◌, Bool-cases, arith,
}
use sheep_cpp.Config.{unsigned, signed, fine}
use sheep_cpp.Config.Client.{Disk}
use sheep_cpp.Config.Toml.{
  Toml, number, boolean, real, text, nested, Element, end, field, encode_all,
}
use sheep_cpp.Config.Toml.Fits.{bare, IsToml, Fits}
use sheep_cpp.Config.Toml.Client.{
  serialize_toml_to_file, unserialize_toml_from_file, toml_file_round_trip,
}
use sheep_cpp.HttpParser.Map.{same, same_refl, same-eq}

-- Documents as trees; an integer has its bits and its pattern, and the last member that was set of
-- a name counts.
mutual
  data Value : Type 0 where
    nothing : Value
    int : ℕ → ℕ → Value
    flag : Bool → Value
    double : ℕ → Value
    str : List ℕ → Value
    table : Members → Value

  data Members : Type 0 where
    no_members : Members
    member : List ℕ → Value → Members → Members

abbrev lookup : List ℕ → Members → Option Value
lookup n no_members = none
lookup n (member m v ms) = let rest = lookup n ms in if same n m then some v else rest

abbrev tree : Toml Value
tree = record {
  null = nothing;
  of_int = int;
  of_bool = flag;
  of_double = double;
  of_string = str;
  set_child = λ n v o. elim o [
    | nothing ↦ table (member n v no_members)
    | table ms ↦ table (member n v ms)
    | _ ↦ flag false
  ];
  find = λ n o. elim o [ table ms ↦ lookup n ms | _ ↦ none ];
  as_int = λ w v. elim v [ int k x ↦ (if k == w then some x else none) | _ ↦ none ];
  as_bool = λ v. elim v [ flag b ↦ some b | _ ↦ none ];
  as_double = λ v. elim v [ double d ↦ some d | _ ↦ none ];
  as_string = λ v. elim v [ str s ↦ some s | _ ↦ none ];
}

abbrev is_table : Value → Bool
is_table nothing = true
is_table (table ms) = true
is_table _ = false

set_child-is_table :
    (n : List ℕ) (v o : Value) → is_table o ≡ true → is_table (tree.set_child n v o) ≡ true
set_child-is_table n v nothing h = refl
set_child-is_table n v (table ms) h = refl
set_child-is_table n v _ h = absurd (ground (arith, h))

child :
    (n : List ℕ) (v o : Value)
    → is_table o ≡ true
    → bare n ≡ true
    → tree.find n (tree.set_child n v o) ≡ some v
child n v nothing h c = rw (same_refl n) refl
child n v (table ms) h c = rw (same_refl n) refl
child n v _ h c = absurd (ground (arith, h))

other_child :
    (n m : List ℕ) (v o : Value)
    → is_table o ≡ true
    → bare n ≡ true
    → bare m ≡ true
    → m ≢ n
    → tree.find m (tree.set_child n v o) ≡ tree.find m o
other_child n m v nothing t c d h = elim (Bool-cases (same m n)) [
  | inl e ↦ absurd (h (same-eq m n e))
  | inr e ↦ rw e refl
]
other_child n m v (table ms) t c d h = elim (Bool-cases (same m n)) [
  | inl e ↦ absurd (h (same-eq m n e))
  | inr e ↦ rw e refl
]
other_child n m v _ t c d h = refl

tree-IsToml : IsToml tree
tree-IsToml = record {
  is_table = is_table;
  is_table-null = refl;
  is_table-set_child = set_child-is_table;
  find-set_child = child;
  find-set_child_other = other_child;
  as_int-of_int = λ w x d h. ground arith;
  as_bool-of_bool = λ b. refl;
  as_double-of_double = λ d h. refl;
  as_string-of_string = λ s. refl;
}

-- addr = "AB", port = 8080, on = true, r = 0.0 and a part with n = -1.
abbrev config : Element
config = field (97 ∷ []) (text (65 ∷ 66 ∷ [])) (
    field (112 ∷ []) (number unsigned 64 8080) (
      field (111 ∷ []) (boolean true) (
        field (114 ∷ []) (real 0)
          (field (115 ∷ []) (nested (field (110 ∷ []) (number signed 32 4294967295) end)) end))))

abbrev blank : Element
blank = field (97 ∷ []) (text []) (
    field (112 ∷ []) (number unsigned 64 0) (
      field (111 ∷ []) (boolean false) (
        field (114 ∷ []) (real 1)
          (field (115 ∷ []) (nested (field (110 ∷ []) (number signed 32 5) end)) end))))

config-Fits : Fits config blank
unfolding Fits
config-Fits = (
  refl,
  refl,
  λ h. ground (arith, h),
  tt,
  (
    refl,
    refl,
    λ h. ground (arith, h),
    (refl, refl, inr refl, omega arith),
    (
      refl,
      refl,
      λ h. ground (arith, h),
      tt,
      (
        refl,
        refl,
        λ h. ground (arith, h),
        omega arith,
        (refl, refl, λ h. h, (refl, refl, λ h. h, (refl, refl, inl refl, omega arith), tt), tt),
      ),
    ),
  ),
)

abbrev no_files : Disk
no_files n = none

-- a="AB", with a line break, and the rest in the same way.
abbrev config_text : List ℕ
config_text =
    97 ∷ 61 ∷ 34 ∷ 65 ∷ 66 ∷ 34 ∷ 10 ∷ 111 ∷ 61 ∷ 116 ∷ 114 ∷ 117 ∷ 101 ∷ 10 ∷ 112 ∷ 61 ∷ 56 ∷ 48
    ∷ 56 ∷ 48 ∷ 10 ∷ 114 ∷ 61 ∷ 48 ∷ 46 ∷ 48 ∷ 10 ∷ 91 ∷ 115 ∷ 93 ∷ 10 ∷ 110 ∷ 61 ∷ 45 ∷ 49 ∷ []

abbrev config_document : Value
config_document = table (
    member (115 ∷ []) (table (member (110 ∷ []) (int 32 4294967295) no_members)) (
      member (114 ∷ []) (double 0) (
        member (111 ∷ []) (flag true)
          (member (112 ∷ []) (int 64 8080) (member (97 ∷ []) (str (65 ∷ 66 ∷ [])) no_members)))))

abbrev parse_config : List ℕ → Option Value
parse_config t = if same t config_text then some config_document else none

written :
    (some config_text ≡ some config_text)
    × (parse_config config_text ≡ some (encode_all tree config nothing))
unfolding encode_all same
written = (refl, refl)

toml_file_round_trip_example :
    (after : Disk) × (serialize_toml_to_file tree
        (λ v. some config_text)
        parse_config
        (λ n. true)
        config
        (7 ∷ [])
        no_files
        fine
      ≡ some (fine, after))
    × (unserialize_toml_from_file tree
          (λ v. some config_text)
          parse_config
          after
          (7 ∷ [])
          fine
          blank
        ≡ (config, fine))
toml_file_round_trip_example =
    toml_file_round_trip tree (λ v. some config_text) parse_config (λ n. true) config blank (7 ∷ [])
      config_text no_files tree-IsToml written config-Fits refl
