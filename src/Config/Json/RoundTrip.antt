-- ===== src/Config/Json/RoundTrip.antt =====
-- An element that is encoded and decoded by src/extends/small_config/small_json/small_json.h.
use mathlib.Core.List.{append_assoc, append-nil}
use sheep_cpp.Base.{
  ℕ, ◌%◌, ◌^◌, ◌<◌, ◌≡◌, refl, sym, ap, ◌∙◌, subst, inl, inr, true, none, some, List, [], ◌∷◌, ◌++◌,
  In, arith,
}
use sheep_cpp.Config.{
  Kind, unsigned, signed, Field, number, boolean, text, nested, vector, Item, whole, flag, chars,
  sub, Items, nil, cons, Element, end, field, append, c_str, to_int64, not_a_string, not_a_array,
}
use sheep_cpp.Config.Json.{
  Rapidjson, then_push, set_all, assign, set, push_values, if_member, go_on, encode_all, encode,
  push_all, create_json_value, decode_all, decode, set_t,
}
use sheep_cpp.Config.Json.Fits.{IsRapidjson, IsWidth, names, Fits, FitsField, FitsItem, FitsItems}

-- A fact of a width is one of 32 and one of 64.
by_width : (P : ℕ → Type 0) (w : ℕ) → IsWidth w → P 32 → P 64 → P w
by_width P w (inl e) a b = subst P (sym e) a
by_width P w (inr e) a b = subst P (sym e) b

pub to_int64-lt : (k : Kind) (w x : ℕ) → IsWidth w → x < 2 ^ w → to_int64 k w x < 2 ^ 64
unfolding to_int64
to_int64-lt unsigned w x d =
    by_width (λ v. x < 2 ^ v → x < 2 ^ 64) w d (λ l. omega (arith, l)) (λ l. l)
to_int64-lt signed w x d =
    by_width (λ v. x < 2 ^ v → to_int64 signed v x < 2 ^ 64) w d (λ l. ground (arith, l))
      (λ l. ground (arith, l))

pub to_int64-mod : (k : Kind) (w x : ℕ) → IsWidth w → x < 2 ^ w → to_int64 k w x % 2 ^ w ≡ x
unfolding to_int64
to_int64-mod unsigned w x d =
    by_width (λ v. x < 2 ^ v → x % 2 ^ v ≡ x) w d (λ l. omega (arith, l)) (λ l. omega (arith, l))
to_int64-mod signed w x d =
    by_width (λ v. x < 2 ^ v → to_int64 signed v x % 2 ^ v ≡ x) w d (λ l. ground (arith, l))
      (λ l. ground (arith, l))

module _ {V : Type 0} (r : Rapidjson V) (laws : IsRapidjson r) where
  is_object-encode_all : (e : Element) (o : V) → r.is_object (encode_all r e o) ≡ r.is_object o
  unfolding encode_all
  is_object-encode_all end o = refl
  is_object-encode_all (field n f e) o =
      is_object-encode_all e (r.add_member n (encode r f) o)
      ∙ laws.is_object-add_member n (encode r f) o

  -- Encoding adds the names of the element and no other.
  member-encode_all :
      (e : Element) (n : List ℕ) (o : V)
      → ¬ In n (names e)
      → r.member n (encode_all r e o) ≡ r.member n o
  unfolding encode_all
  member-encode_all end n o h = refl
  member-encode_all (field m f e) n o h =
      member-encode_all e n (r.add_member m (encode r f) o) (λ i. h (inr i))
      ∙ laws.member-add_member_other m n (encode r f) o (λ x. h (inl x))

  values : Items → List V
  values nil = []
  values (cons x xs) = create_json_value r x ∷ values xs

  elements-push_all :
      (xs : Items) (a : V) (vs : List V)
      → r.elements a ≡ some vs
      → r.elements (push_all r xs a) ≡ some (vs ++ values xs)
  unfolding encode_all values
  elements-push_all nil a vs h = h ∙ ap some (sym (append-nil vs))
  elements-push_all (cons x xs) a vs h =
      let v = create_json_value r x in
      elements-push_all xs (r.push_back v a) (vs ++ v ∷ []) (laws.elements-push_back v a vs h)
      ∙ ap some (append_assoc vs (v ∷ []) (values xs))

  -- One added member is there after all are.
  member-field :
      (n : List ℕ) (f : Field) (e : Element) (o : V)
      → r.is_object o ≡ true
      → r.member n o ≡ none
      → ¬ In n (names e)
      → r.member n (encode_all r (field n f e) o) ≡ some (encode r f)
  unfolding encode_all
  member-field n f e o t h i =
      member-encode_all e n (r.add_member n (encode r f) o) i
      ∙ laws.member-add_member n (encode r f) o t h

  decode-number :
      (n : List ℕ) (k : Kind) (w x y : ℕ)
      → IsWidth w
      → x < 2 ^ w
      → decode r n (number k w y) (encode r (number k w x)) ≡ (number k w x, none)
  unfolding encode_all decode_all assign
  decode-number n unsigned w x y d h =
      let g = laws.get_int-of_int64 (to_int64 unsigned w x) (to_int64-lt unsigned w x d h) in
      rw (g, to_int64-mod unsigned w x d h) refl
  decode-number n signed w x y d h =
      let g : r.get_int w (r.of_int64 (to_int64 signed w x)) ≡ some (to_int64 signed w x) =
        by_width
          (λ v.
            x < 2 ^ v → r.get_int v (r.of_int64 (to_int64 signed v x)) ≡ some (to_int64 signed v x))
          w d (laws.get_int-of_int32 x)
          (λ l. laws.get_int-of_int64 (to_int64 signed 64 x) (to_int64-lt signed 64 x (inr refl) l))
          h in
      rw (g, to_int64-mod signed w x d h) refl

  get-whole :
      (k : Kind) (w x : ℕ)
      → IsWidth w
      → x < 2 ^ w
      → ((k ≡ unsigned) → x < 2 ^ 63)
      → r.get_int 64 (create_json_value r (whole k w x)) ≡ some (to_int64 k w x)
  unfolding encode_all to_int64
  get-whole unsigned w x d h u = laws.get_int-of_uint64 x (u refl)
  get-whole signed w x d h u =
      laws.get_int-of_int64 (to_int64 signed w x) (to_int64-lt signed w x d h)

  set-whole :
      (k : Kind) (w x y : ℕ)
      → IsWidth w
      → x < 2 ^ w
      → ((k ≡ unsigned) → x < 2 ^ 63)
      → set_t r (whole k w y) (create_json_value r (whole k w x)) ≡ (whole k w x, none)
  unfolding encode_all decode_all set
  set-whole k w x y d h u =
      ap (λ o. set (λ i. whole k w (i % 2 ^ w)) (whole k w y) o) (get-whole k w x d h u)
      ∙ ap (λ i. (whole k w i, none)) (to_int64-mod k w x d h)

  mutual
    unfolding encode_all decode_all assign set push_values if_member go_on then_push set_all append
        Fits values

    read_all :
        (e b : Element) (o : V)
        → Fits e b
        → r.is_object o ≡ true
        → ((n : List ℕ) → In n (names e) → r.member n o ≡ none)
        → decode_all r b (encode_all r e o) ≡ (e, none)
    read_all end end o h t a = refl
    read_all (field n f e) (field m g b) o (q, i, hf, he) t a =
        let o1 = r.add_member n (encode r f) o in
        let later : (k : List ℕ) → In k (names e) → r.member k o1 ≡ none = λ k j.
          laws.member-add_member_other n k (encode r f) o (λ x. i (subst (λ z. In z (names e)) x j))
          ∙ a k (inr j) in
        let rest = read_all e b o1 he (laws.is_object-add_member n (encode r f) o ∙ t) later in
        rw (sym q) (
          ap (λ z. go_on n b (if_member (decode r n g) g z) (decode_all r b (encode_all r e o1)))
            (member-field n f e o t (a n (inl refl)) i)
          ∙ ap (λ z. go_on n b z (decode_all r b (encode_all r e o1))) (read n f g hf)
          ∙ ap (λ z. go_on n b (f, none) z) rest)
    read_all _ _ o h t a = elim h [ ]

    read : (n : List ℕ) (f g : Field) → FitsField f g → decode r n g (encode r f) ≡ (f, none)
    read n (number k w x) (number l v y) (p, q, d, h) =
        rw (sym p, sym q) (decode-number n k w x y d h)
    read n (boolean b) (boolean c) h = rw (laws.get_bool-of_bool b) refl
    read n (text s) (text t) h =
        ap (λ o. assign (λ z. text (c_str z)) (text t) (not_a_string n) o)
          (laws.get_string-of_string (c_str s))
        ∙ ap (λ z. (text (c_str z), none)) h
        ∙ ap (λ z. (text z, none)) h
    read n (nested e) (nested b) h =
        let ih = read_all e b r.object h laws.is_object-object (λ k j. laws.member-object k) in
        let t = is_object-encode_all e r.object ∙ laws.is_object-object in rw (ih, t) refl
    read n (vector t xs) (vector u ys) (p, q, h) =
        let e = elements-push_all xs r.array [] laws.elements-array in
        let ih = read_items xs t h in
        rw (sym p, q)
          (ap (λ o. push_values t nil (set_all (set_t r t)) (not_a_array n) o) e
            ∙ ap (λ z. (vector t z.0, z.1)) ih)
    read n _ _ h = elim h [ ]

    read_items :
        (xs : Items) (t : Item) → FitsItems xs t → set_all (set_t r t) (values xs) ≡ (xs, none)
    read_items nil t h = refl
    read_items (cons x xs) t h =
        ap (λ z. then_push z (set_all (set_t r t) (values xs))) (read_item x t h.0)
        ∙ ap (λ z. then_push (x, none) z) (read_items xs t h.1)

    read_item : (x t : Item) → FitsItem x t → set_t r t (create_json_value r x) ≡ (x, none)
    read_item (whole k w x) (whole l v y) (p, q, d, h, u) =
        rw (sym p, sym q) (set-whole k w x y d h u)
    read_item (flag b) (flag c) h = rw (laws.get_bool-of_bool b) refl
    read_item (chars s) (chars t) h = rw (laws.get_string-of_string s) refl
    read_item (sub e) (sub b) h =
        rw (read_all e b r.object h laws.is_object-object (λ k j. laws.member-object k)) refl
    read_item _ _ h = elim h [ ]

  -- A document that was encoded is decoded to the element, with no fault.
  pub decode_all-encode_all :
      (e b : Element) → Fits e b → decode_all r b (encode_all r e r.object) ≡ (e, none)
  decode_all-encode_all e b h =
      read_all e b r.object h laws.is_object-object (λ k j. laws.member-object k)
