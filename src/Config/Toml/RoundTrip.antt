-- ===== src/Config/Toml/RoundTrip.antt =====
-- An element that is encoded and decoded by src/extends/small_config/small_toml/small_toml.h.
use sheep_cpp.Base.{ℕ, ◌^◌, ◌<◌, ◌≡◌, refl, sym, ap, ◌∙◌, subst, inl, inr, true, List, In}
use sheep_cpp.Config.{Kind, unsigned, signed, to_int64}
use sheep_cpp.Config.Json.Fits.{IsWidth}
use sheep_cpp.Config.Json.RoundTrip.{to_int64-lt, to_int64-mod}
use sheep_cpp.Config.Toml.{
  Toml, Field, number, boolean, real, text, nested, Element, end, field, assign_if, if_found,
  encode_all, encode, decode_all, decode,
}
use sheep_cpp.Config.Toml.Fits.{bare, IsToml, names, Fits, FitsField}

module _ {V : Type 0} (r : Toml V) (laws : IsToml r) where
  -- All names of an element that is read back are bare.
  bare-names : (e b : Element) → Fits e b → (n : List ℕ) → In n (names e) → bare n ≡ true
  unfolding Fits
  bare-names end end h n i = elim i [ ]
  bare-names (field m f e) (field k g b) (q, c, j, hf, he) n (inl p) =
      subst (λ z. bare z ≡ true) (sym p) c
  bare-names (field m f e) (field k g b) (q, c, j, hf, he) n (inr i) = bare-names e b he n i
  bare-names _ _ h n i = elim h [ ]

  -- Encoding adds the names of the element and no other.
  find-encode_all :
      (e b : Element) (n : List ℕ) (o : V)
      → Fits e b
      → laws.is_table o ≡ true
      → bare n ≡ true
      → ¬ In n (names e)
      → r.find n (encode_all r e o) ≡ r.find n o
  unfolding encode_all Fits
  find-encode_all end end n o h t c i = refl
  find-encode_all (field m f e) (field k g b) n o (q, d, j, hf, he) t c i =
      let v = encode r f in
      find-encode_all e b n (r.set_child m v o) he (laws.is_table-set_child m v o t) c
        (λ x. i (inr x))
      ∙ laws.find-set_child_other m n v o t d c (λ x. i (inl x))
  find-encode_all _ _ n o h t c i = elim h [ ]

  decode-number :
      (k : Kind) (w x y : ℕ)
      → IsWidth w
      → x < 2 ^ w
      → decode r (number k w y) (encode r (number k w x)) ≡ number k w x
  unfolding encode_all decode_all assign_if
  decode-number unsigned w x y d h =
      let g =
        laws.as_int-of_int 64 (to_int64 unsigned w x) (inr refl) (to_int64-lt unsigned w x d h) in
      rw (g, to_int64-mod unsigned w x d h) refl
  decode-number signed w x y d h = rw (laws.as_int-of_int w x d h) refl

  mutual
    unfolding encode_all decode_all assign_if if_found Fits

    read_all :
        (e b : Element) (o : V)
        → Fits e b
        → laws.is_table o ≡ true
        → decode_all r b (encode_all r e o) ≡ e
    read_all end end o h t = refl
    read_all (field n f e) (field m g b) o (q, c, i, hf, he) t =
        let v = encode r f in
        let t1 = laws.is_table-set_child n v o t in
        let found =
          find-encode_all e b n (r.set_child n v o) he t1 c i ∙ laws.find-set_child n v o t c in
        rw (sym q, found, read f g hf, read_all e b (r.set_child n v o) he t1) refl
    read_all _ _ o h t = elim h [ ]

    read : (f g : Field) → FitsField f g → decode r g (encode r f) ≡ f
    read (number k w x) (number l v y) (p, q, d, h) = rw (sym p, sym q) (decode-number k w x y d h)
    read (boolean b) (boolean c) h = rw (laws.as_bool-of_bool b) refl
    read (real d) (real c) h = rw (laws.as_double-of_double d h) refl
    read (text s) (text t) h = rw (laws.as_string-of_string s) refl
    read (nested e) (nested b) h = ap nested (read_all e b r.null h laws.is_table-null)
    read _ _ h = elim h [ ]

  -- A document that was encoded is decoded to the element.
  pub decode_all-encode_all :
      (e b : Element) → Fits e b → decode_all r b (encode_all r e r.null) ≡ e
  decode_all-encode_all e b h = read_all e b r.null h laws.is_table-null
