-- ===== src/Config/Tests.antt =====
-- Elements of src/extends/small_config through a concrete JSON library.
use sheep_cpp.Base.{
  ℕ, ◌-◌, ◌^◌, ◌≡◌, ◌≢◌, refl, inl, inr, Bool, true, false, Option, none, some, List, [], ◌∷◌, ◌++◌,
  if◌then◌else◌, ltb, Bool-cases, arith,
}
use sheep_cpp.Config.{
  unsigned, signed, number, text, nested, vector, whole, nil, cons, Element, end, field, c_str,
  to_int64, fine,
}
use sheep_cpp.Config.Json.{Rapidjson, encode_all}
use sheep_cpp.Config.Json.Fits.{IsRapidjson, Fits}
use sheep_cpp.Config.Client.{Disk, serialize_json_to_file, unserialize_json_from_file}
use sheep_cpp.Config.Client.Files.{json_file_round_trip}
use sheep_cpp.HttpParser.Map.{same, same_refl, same-eq}

-- Documents as trees. A number is a pattern of 64 bits, with the word whether it is unsigned.
mutual
  data Json : Type 0 where
    num : Bool → ℕ → Json
    flag : Bool → Json
    str : List ℕ → Json
    arr : Values → Json
    obj : Members → Json

  data Values : Type 0 where
    done : Values
    value : Values → Json → Values

  data Members : Type 0 where
    empty : Members
    member : List ℕ → Json → Members → Members

abbrev list_of : Values → List Json
list_of done = []
list_of (value vs v) = list_of vs ++ v ∷ []

-- The first member of a name counts, so a new one goes to the end.
abbrev snoc : List ℕ → Json → Members → Members
snoc n v empty = member n v empty
snoc n v (member m w ms) = member m w (snoc n v ms)

abbrev find : List ℕ → Members → Option Json
find n empty = none
find n (member m v ms) = let rest = find n ms in if same n m then some v else rest

abbrev fits : ℕ → ℕ → Option ℕ
fits w x =
    if ltb x (2 ^ (w - 1)) then some x else (if ltb x (2 ^ 64 - 2 ^ (w - 1)) then none else some x)

abbrev tree : Rapidjson Json
tree = record {
  object = obj empty;
  array = arr done;
  of_int64 = λ x. num false x;
  of_uint64 = λ x. num true x;
  of_bool = flag;
  of_string = str;
  add_member = λ n v o. elim o [ obj ms ↦ obj (snoc n v ms) | _ ↦ flag false ];
  push_back = λ v a. elim a [ arr vs ↦ arr (value vs v) | _ ↦ flag false ];
  is_object = λ o. elim o [ obj ms ↦ true | _ ↦ false ];
  member = λ n o. elim o [ obj ms ↦ find n ms | _ ↦ none ];
  get_int = λ w v. elim v [
    | num false x ↦ fits w x
    | num true x ↦ (if ltb x (2 ^ 63) then fits w x else none)
    | _ ↦ none
  ];
  get_bool = λ v. elim v [ flag b ↦ some b | _ ↦ none ];
  get_string = λ v. elim v [ str s ↦ some s | _ ↦ none ];
  elements = λ v. elim v [ arr vs ↦ some (list_of vs) | _ ↦ none ];
}

find-snoc :
    (n : List ℕ) (v : Json) (ms : Members) → find n ms ≡ none → find n (snoc n v ms) ≡ some v
find-snoc n v empty h = rw (same_refl n) refl
find-snoc n v (member m w ms) h = elim (Bool-cases (same n m)) [
  | inl t ↦ absurd (ground (arith, t, h))
  | inr t ↦ let r = find-snoc n v ms (ground (arith, t, h)) in ground (arith, t, r)
]

find-snoc_other :
    (n m : List ℕ) (v : Json) (ms : Members) → m ≢ n → find m (snoc n v ms) ≡ find m ms
find-snoc_other n m v empty h = elim (Bool-cases (same m n)) [
  | inl t ↦ absurd (h (same-eq m n t))
  | inr t ↦ rw t refl
]
find-snoc_other n m v (member k w ms) h = let r = find-snoc_other n m v ms h in rw r refl

still_object : (n : List ℕ) (v o : Json) → tree.is_object (tree.add_member n v o) ≡ tree.is_object o
still_object n v (obj ms) = refl
still_object n v _ = refl

added :
    (n : List ℕ) (v o : Json)
    → tree.is_object o ≡ true
    → tree.member n o ≡ none
    → tree.member n (tree.add_member n v o) ≡ some v
added n v (obj ms) t h = find-snoc n v ms h
added n v _ t h = absurd (ground (arith, t))

added_other :
    (n m : List ℕ) (v o : Json) → m ≢ n → tree.member m (tree.add_member n v o) ≡ tree.member m o
added_other n m v (obj ms) h = find-snoc_other n m v ms h
added_other n m v _ h = refl

pushed :
    (v a : Json) (vs : List Json)
    → tree.elements a ≡ some vs
    → tree.elements (tree.push_back v a) ≡ some (vs ++ v ∷ [])
pushed v (arr xs) vs h = ground (arith, h)
pushed v _ vs h = absurd (ground (arith, h))

tree-IsRapidjson : IsRapidjson tree
unfolding to_int64
tree-IsRapidjson = record {
  is_object-object = refl;
  is_object-add_member = still_object;
  member-object = λ n. refl;
  member-add_member = added;
  member-add_member_other = added_other;
  elements-array = refl;
  elements-push_back = pushed;
  get_int-of_int64 = λ x h. ground (arith, h);
  get_int-of_int32 = λ x h. ground (arith, h);
  get_int-of_uint64 = λ x h. ground (arith, h);
  get_bool-of_bool = λ b. refl;
  get_string-of_string = λ s. refl;
}

-- An address, a port, a part with a signed number, and a vector of numbers.
abbrev config : Element
config = field (1 ∷ []) (text (65 ∷ 66 ∷ [])) (
    field (2 ∷ []) (number unsigned 64 8080) (
      field (3 ∷ []) (nested (field (1 ∷ []) (number signed 32 4294967295) end))
        (field (4 ∷ []) (vector (whole signed 32 0) (cons (whole signed 32 7) nil)) end)))

abbrev blank : Element
blank = field (1 ∷ []) (text []) (
    field (2 ∷ []) (number unsigned 64 0) (
      field (3 ∷ []) (nested (field (1 ∷ []) (number signed 32 5) end))
        (field (4 ∷ []) (vector (whole signed 32 0) nil) end)))

config-Fits : Fits config blank
unfolding Fits c_str
config-Fits = (
  refl,
  λ h. ground (arith, h),
  refl,
  (
    refl,
    λ h. ground (arith, h),
    (refl, refl, inr refl, omega arith),
    (
      refl,
      λ h. ground (arith, h),
      (refl, λ h. h, (refl, refl, inl refl, omega arith), tt),
      (
        refl,
        λ h. h,
        (refl, refl, ((refl, refl, inl refl, omega arith, λ h. absurd (ground (arith, h))), tt)),
        tt,
      ),
    ),
  ),
)

abbrev no_files : Disk
no_files n = none

-- {"1":"AB","2":8080,"3":{"1":-1},"4":[7]}, where a name's byte is shown as its number.
abbrev config_text : List ℕ
config_text =
    123 ∷ 34 ∷ 1 ∷ 34 ∷ 58 ∷ 34 ∷ 65 ∷ 66 ∷ 34 ∷ 44 ∷ 34 ∷ 2 ∷ 34 ∷ 58 ∷ 56 ∷ 48 ∷ 56 ∷ 48 ∷ 44 ∷ 34
    ∷ 3 ∷ 34 ∷ 58 ∷ 123 ∷ 34 ∷ 1 ∷ 34 ∷ 58 ∷ 45 ∷ 49 ∷ 125 ∷ 44 ∷ 34 ∷ 4 ∷ 34 ∷ 58 ∷ 91 ∷ 55 ∷ 93
    ∷ 125 ∷ []

abbrev config_document : Json
config_document = obj (
    member (1 ∷ []) (str (65 ∷ 66 ∷ [])) (
      member (2 ∷ []) (num false 8080) (
        member (3 ∷ []) (obj (member (1 ∷ []) (num false 18446744073709551615) empty))
          (member (4 ∷ []) (arr (value done (num false 7))) empty))))

encoded : encode_all tree config (obj empty) ≡ config_document
unfolding encode_all to_int64 c_str
encoded = refl

abbrev parse_config : List ℕ → Option Json
parse_config t = if same t config_text then some config_document else none

written :
    (c_str config_text ≡ config_text)
    × (parse_config config_text ≡ some (encode_all tree config (obj empty)))
unfolding encode_all to_int64 c_str same
written = (refl, refl)

json_file_round_trip_example :
    ((serialize_json_to_file tree
        (λ v. config_text)
        parse_config
        (λ n. true)
        config
        (7 ∷ [])
        no_files
        fine).0
      ≡ fine)
    × (unserialize_json_from_file tree
          (λ v. config_text)
          parse_config
          (serialize_json_to_file tree
            (λ v. config_text)
            parse_config
            (λ n. true)
            config
            (7 ∷ [])
            no_files
            fine).1
          (7 ∷ [])
          fine
          blank
        ≡ (config, fine))
json_file_round_trip_example =
    json_file_round_trip tree (λ v. config_text) parse_config (λ n. true) config blank (7 ∷ [])
      no_files tree-IsRapidjson written config-Fits refl
