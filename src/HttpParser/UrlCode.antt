-- ===== src/HttpParser/UrlCode.antt =====
-- src/extends/small_http_parser/urlcode.h. A string is a list of bytes; a C string ends at its first
-- zero. A char is the byte that it is modulo 256, and the ctype functions are those of the C locale.
pub mod RoundTrip
use sheep_cpp.Base.{
  ℕ, zero, suc, ◌+◌, ◌-◌, ◌*◌, ◌/◌, ◌%◌, Bool, true, false, not, ◌&&◌, ◌||◌, List, [], ◌∷◌,
  if◌then◌else◌, ◌==◌, leb,
}

abbrev pub between : ℕ → ℕ → ℕ → Bool
between a b c = leb a c && leb c b

unfoldable pub is_digit : ℕ → Bool
is_digit c = between 48 57 c

unfoldable pub is_alnum : ℕ → Bool
unfolding is_digit
is_alnum c = is_digit c || between 65 90 c || between 97 122 c

unfoldable pub to_lower : ℕ → ℕ
to_lower c = if between 65 90 c then c + 32 else c

-- from_hex; tolower(ch) - 'a' + 10 may be negative
unfoldable pub from_hex : ℕ → ℕ
unfolding is_digit to_lower
from_hex c = if is_digit c then c - 48 else (to_lower c + 169) % 256

-- to_hex, the table written as a formula
unfoldable pub to_hex : ℕ → ℕ
to_hex n = if leb (n % 16) 9 then 48 + n % 16 else 87 + n % 16

unfoldable pub is_plain : ℕ → Bool
unfolding is_alnum
is_plain c = is_alnum c || c == 45 || c == 95 || c == 46 || c == 126

unfoldable pub url_encode : List ℕ → List ℕ
unfolding is_plain to_hex
url_encode [] = []
url_encode (c ∷ cs) =
    let rest = url_encode cs in
    if c == 0
    then []
    else if is_plain c
    then c ∷ rest
    else if c == 32
    then 43 ∷ rest
    else 37 ∷ to_hex (c / 16) ∷ to_hex (c % 16) ∷ rest

-- strlen, and the size that url_encode asks malloc for; the result takes one byte more than its
-- length.
unfoldable pub strlen : List ℕ → ℕ
strlen [] = 0
strlen (c ∷ cs) = let rest = strlen cs in if c == 0 then 0 else suc rest

unfoldable pub allocated : List ℕ → ℕ
unfolding strlen
allocated s = strlen s * 3 + 1

-- The bits of a | b, from the lowest.
unfoldable pub bit_or : ℕ → ℕ → ℕ → ℕ
bit_or zero a b = 0
bit_or (suc n) a b = (if a % 2 == 1 || b % 2 == 1 then 1 else 0) + 2 * bit_or n (a / 2) (b / 2)

-- from_hex(a) << 4 | from_hex(b), as a char
unfoldable pub from_hex_pair : ℕ → ℕ → ℕ
unfolding from_hex bit_or
from_hex_pair a b = bit_or 8 (from_hex a * 16 % 256) (from_hex b)

unfoldable pub url_decode : List ℕ → List ℕ
unfolding from_hex_pair
url_decode [] = []
url_decode (c ∷ []) = if c == 0 || c == 37 then [] else if c == 43 then 32 ∷ [] else c ∷ []
url_decode (c ∷ a ∷ []) =
    let rest = url_decode (a ∷ []) in
    if c == 0 then [] else if c == 37 then rest else if c == 43 then 32 ∷ rest else c ∷ rest
url_decode (c ∷ a ∷ b ∷ cs) =
    let rest = url_decode (a ∷ b ∷ cs) in
    let later = url_decode cs in
    if c == 0
    then []
    else if c == 37
    then (if not (a == 0) && not (b == 0) then from_hex_pair a b ∷ later else rest)
    else if c == 43
    then 32 ∷ rest
    else c ∷ rest
