-- ===== src/HttpParser/UrlCode/RoundTrip.antt =====
-- Encoding and decoding with src/extends/small_http_parser/urlcode.h.
use sheep_cpp.Base.{
  ℕ, zero, suc, ◌+◌, ◌*◌, ◌/◌, ◌%◌, ◌^◌, ◌<◌, ◌≤◌, ◌≡◌, ◌≢◌, refl, ap, ◌∙◌, subst, inl, inr, true,
  false, List, [], ◌∷◌, if◌then◌else◌, ◌==◌, leb, All, length, Bool-cases, arith,
}
use sheep_cpp.HttpParser.UrlCode.{
  is_digit, is_alnum, from_hex, to_hex, is_plain, url_encode, allocated, bit_or, from_hex_pair,
  url_decode,
}

from_hex-to_hex : (n : ℕ) → n < 16 → from_hex (to_hex n) ≡ n
unfolding from_hex to_hex
from_hex-to_hex n l = elim (Bool-cases (leb n 9)) [
  | inl b ↦ let z : n % 16 ≡ n = omega arith in ground (arith, z, b)
  | inr b ↦ let z : n % 16 ≡ n = omega arith in ground (arith, z, b)
]

bit_or_zero : (n a : ℕ) → a < 2 ^ n → bit_or n a 0 ≡ a
unfolding bit_or
bit_or_zero zero a l = omega arith
bit_or_zero (suc n) a l = let r = bit_or_zero n (a / 2) (omega arith) in ground (arith, r)

bit_or_even : (n a b : ℕ) → bit_or (suc n) (2 * a) b ≡ b % 2 + 2 * bit_or n a (b / 2)
unfolding bit_or
bit_or_even n a b =
    let z : 2 * a % 2 ≡ 0 = omega arith in
    let w : 2 * a / 2 ≡ a = omega arith in
    let v : b % 2 < 2 = omega arith in rw (z, w) (low (b % 2) v)
  where
    low :
        (k : ℕ)
        → k < 2
        → (if k == 1 then 1 else 0) + 2 * bit_or n a (b / 2) ≡ k + 2 * bit_or n a (b / 2)
    low k l = ground arith

-- A high and a low half byte.
bit_or_halves : (a b : ℕ) → a < 16 → b < 16 → bit_or 8 (a * 16) b ≡ a * 16 + b
bit_or_halves a b l m =
    let e1 = bit_or_even 7 (8 * a) b in
    let e2 = bit_or_even 6 (4 * a) (b / 2) in
    let e3 = bit_or_even 5 (2 * a) (b / 2 / 2) in
    let e4 = bit_or_even 4 a (b / 2 / 2 / 2) in
    let z : b / 2 / 2 / 2 / 2 ≡ 0 = omega arith in
    let f : bit_or 4 a (b / 2 / 2 / 2 / 2) ≡ a = rw z (bit_or_zero 4 a l) in
    let g1 : 2 * (8 * a) ≡ a * 16 = omega arith in
    let g2 : 2 * (4 * a) ≡ 8 * a = omega arith in
    let g3 : 2 * (2 * a) ≡ 4 * a = omega arith in
    let h1 = subst (λ x. bit_or 8 x b ≡ b % 2 + 2 * bit_or 7 (8 * a) (b / 2)) g1 e1 in
    let h2 = subst (λ x. bit_or 7 x (b / 2) ≡ b / 2 % 2 + 2 * bit_or 6 (4 * a) (b / 2 / 2)) g2 e2 in
    let h3 =
      subst (λ x. bit_or 6 x (b / 2 / 2) ≡ b / 2 / 2 % 2 + 2 * bit_or 5 (2 * a) (b / 2 / 2 / 2)) g3
        e3 in
    omega (arith, h1, h2, h3, e4, f)

from_hex_pair-to_hex : (c : ℕ) → c < 256 → from_hex_pair (to_hex (c / 16)) (to_hex (c % 16)) ≡ c
unfolding from_hex_pair
from_hex_pair-to_hex c l =
    let a = from_hex-to_hex (c / 16) (omega arith) in
    let b = from_hex-to_hex (c % 16) (omega arith) in
    let z : c / 16 * 16 % 256 ≡ c / 16 * 16 = omega arith in
    rw (a, b, z) (bit_or_halves (c / 16) (c % 16) (omega arith) (omega arith) ∙ omega arith)

to_hex_pos : (n : ℕ) → 0 < to_hex n
unfolding to_hex
to_hex_pos n = ground arith

url_decode_plain :
    (c : ℕ) (l : List ℕ) → c ≢ 0 → c ≢ 37 → c ≢ 43 → url_decode (c ∷ l) ≡ c ∷ url_decode l
unfolding url_decode
url_decode_plain c [] x y z = ground arith
url_decode_plain c (a ∷ []) x y z = ground arith
url_decode_plain c (a ∷ b ∷ l) x y z = ground arith

url_decode_plus : (l : List ℕ) → url_decode (43 ∷ l) ≡ 32 ∷ url_decode l
unfolding url_decode
url_decode_plus [] = refl
url_decode_plus (a ∷ []) = refl
url_decode_plus (a ∷ b ∷ l) = refl

url_decode_percent :
    (a b : ℕ) (l : List ℕ)
    → 0 < a
    → 0 < b
    → url_decode (37 ∷ a ∷ b ∷ l) ≡ from_hex_pair a b ∷ url_decode l
unfolding url_decode
url_decode_percent a b l x y = ground arith

plain_others : (c : ℕ) → is_plain c ≡ true → (c ≢ 37) × (c ≢ 43)
unfolding is_plain is_alnum is_digit
plain_others c e = (λ q. ground (arith, e, q), λ q. ground (arith, e, q))

url_decode_nil : url_decode [] ≡ []
unfolding url_decode
url_decode_nil = refl

-- For a string of bytes from 1 to 255, url_decode gives back what url_encode was given.
pub url_decode-url_encode :
    (s : List ℕ) → All (λ c. (0 < c) × (c < 256)) s → url_decode (url_encode s) ≡ s
unfolding url_encode
url_decode-url_encode [] v = url_decode_nil
url_decode-url_encode (c ∷ cs) v =
    let r = url_decode-url_encode cs v.1 in
    let p = v.0.0 in
    let nz : (c == 0) ≡ false = ground (arith, p) in
    elim (Bool-cases (is_plain c)) [
      | inl b ↦
          let (x, y) = plain_others c b in
          rw (nz, b) (url_decode_plain c (url_encode cs) (omega (arith, p)) x y ∙ ap (◌∷◌ c) r)
      | inr b ↦ elim (Bool-cases (c == 32)) [
        | inl e ↦ rw (nz, b, e) (url_decode_plus (url_encode cs) ∙ ground (arith, r, e))
        | inr e ↦
            rw (nz, b, e)
              (url_decode_percent (to_hex (c / 16)) (to_hex (c % 16)) (url_encode cs)
                  (to_hex_pos (c / 16)) (to_hex_pos (c % 16))
                ∙ let q = from_hex_pair-to_hex c v.0.1 in rw (q, r) refl)
      ]
    ]

-- The result of url_encode with its final 0 has at most the size that is allocated for it: three
-- times the length of the C string plus one.
pub length-url_encode : (s : List ℕ) → length (url_encode s) + 1 ≤ allocated s
unfolding url_encode allocated
length-url_encode [] = omega arith
length-url_encode (c ∷ cs) = let r = length-url_encode cs in ground (arith, r)
