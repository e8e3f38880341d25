-- ===== src/SmallClient/AddrPort.antt =====
-- AddrPort2addrAndPort of src/small_client/client_channel/client_manager.h, on what
-- string_resolver.h makes of an ip and a port, with split of
-- src/extends/small_packages/small_strings. Strings are lists of bytes.
use sheep_cpp.Base.{
  ℕ, ◌≡◌, ◌≢◌, refl, ap, ◌∙◌, inl, inr, true, false, Option, none, some, List, [], ◌∷◌, ◌++◌,
  if◌then◌else◌, ◌==◌, In, arith,
}

abbrev pub colon : ℕ
colon = 58

-- The ip, a colon, and what std::to_string makes of the port.
unfoldable pub addr_port : (ℕ → List ℕ) → List ℕ → ℕ → List ℕ
addr_port to_string ip port = ip ++ colon ∷ to_string port

unfoldable pub push_char : ℕ → List (List ℕ) → List (List ℕ)
push_char x [] = (x ∷ []) ∷ []
push_char x (s ∷ r) = (x ∷ s) ∷ r

-- The strings that getline reads: nothing follows a last delimiter.
unfoldable pub split : List ℕ → ℕ → List (List ℕ)
unfolding push_char
split [] c = []
split (x ∷ xs) c = let rest = split xs c in if x == c then [] ∷ rest else push_char x rest

unfoldable pub last : List ℕ → List (List ℕ) → List ℕ
last s [] = s
last s (t ∷ r) = last t r

-- What the call does to ok, addr and port; `throws` where std::stoi does.
pub data Parsed : Type 0 where
  not_ok throws : Parsed
  ok_with : List ℕ → ℕ → Parsed

unfoldable pub port_of : List ℕ → Option ℕ → Parsed
port_of addr none = throws
port_of addr (some port) = ok_with addr port

unfoldable pub of_list : (List ℕ → Option ℕ) → List (List ℕ) → Parsed
unfolding last port_of
of_list stoi [] = not_ok
of_list stoi (s ∷ r) = port_of s (stoi (last s r))

-- A port of -1 sets ok to false, and the next line to true again.
unfoldable pub addr_port_to_addr_and_port : (List ℕ → Option ℕ) → List ℕ → Parsed
unfolding of_list split
addr_port_to_addr_and_port stoi str = of_list stoi (split str colon)

split_plain : (x : ℕ) (xs : List ℕ) (c : ℕ) → ¬ In c (x ∷ xs) → split (x ∷ xs) c ≡ (x ∷ xs) ∷ []
unfolding split push_char
split_plain x [] c h =
    let n : (x == c) ≡ false = ground (arith, λ (e : c ≡ x). h (inl e)) in rw n refl
split_plain x (y ∷ ys) c h =
    let n : (x == c) ≡ false = ground (arith, λ (e : c ≡ x). h (inl e)) in
    ap (λ b. if b then [] ∷ split (y ∷ ys) c else push_char x (split (y ∷ ys) c)) n
    ∙ ap (push_char x) (split_plain y ys c (λ i. h (inr i)))

split_two :
    (xs : List ℕ) (y : ℕ) (ys : List ℕ) (c : ℕ)
    → ¬ In c xs
    → ¬ In c (y ∷ ys)
    → split (xs ++ c ∷ y ∷ ys) c ≡ xs ∷ (y ∷ ys) ∷ []
unfolding split push_char
split_two [] y ys c h k =
    let n : (c == c) ≡ true = ground arith in
    ap (λ b. if b then [] ∷ split (y ∷ ys) c else push_char c (split (y ∷ ys) c)) n
    ∙ ap (◌∷◌ []) (split_plain y ys c k)
split_two (x ∷ xs) y ys c h k =
    let n : (x == c) ≡ false = ground (arith, λ (e : c ≡ x). h (inl e)) in
    let rest = xs ++ c ∷ y ∷ ys in
    ap (λ b. if b then [] ∷ split rest c else push_char x (split rest c)) n
    ∙ ap (push_char x) (split_two xs y ys c (λ i. h (inr i)) k)

-- For an ip without a colon and a port whose digits are some, none of them a colon, and are read
-- as this port: what the string resolver makes of the two is read as this ip and this port.
pub addr_port_round_trip :
    (to_string : ℕ → List ℕ) (stoi : List ℕ → Option ℕ) (ip : List ℕ) (port : ℕ)
    → ¬ In colon ip
    → to_string port ≢ []
    → ¬ In colon (to_string port)
    → stoi (to_string port) ≡ some port
    → addr_port_to_addr_and_port stoi (addr_port to_string ip port) ≡ ok_with ip port
unfolding addr_port_to_addr_and_port addr_port of_list last port_of
addr_port_round_trip to_string stoi ip port h n k e = with_digits (to_string port) n k e
  where
    with_digits :
        (ds : List ℕ)
        → ds ≢ []
        → ¬ In colon ds
        → stoi ds ≡ some port
        → of_list stoi (split (ip ++ colon ∷ ds) colon) ≡ ok_with ip port
    with_digits [] n k e = absurd (n refl)
    with_digits (d ∷ ds) n k e = ap (of_list stoi) (split_two ip d ds colon h k) ∙ ap (port_of ip) e
