-- ===== src/HttpParser/Tests.antt =====
-- The theorems on src/extends/small_http_parser at concrete inputs.
use sheep_cpp.Base.{ℕ, ◌+◌, ◌≡◌, ◌≤◌, refl, inl, true, List, [], ◌∷◌, ◌++◌, length, arith}
use sheep_cpp.HttpParser.Map.{get, same}
use sheep_cpp.HttpParser.RespParser.{make_parser, execute}
use sheep_cpp.HttpParser.RespParser.Whole.{
  Part, header, content, reports, first_value, or_else, contents, execute-reports,
}
use sheep_cpp.HttpParser.ReqFormater.{
  ReqFormater, make_formater, set_header, method_put, lr, format,
}
use sheep_cpp.HttpParser.ReqFormater.Framing.{EndsWith, Shows, format-IsFramed}
use sheep_cpp.HttpParser.UrlCode.{url_encode, allocated, url_decode}
use sheep_cpp.HttpParser.UrlCode.RoundTrip.{url_decode-url_encode, length-url_encode}

-- "a b/" and a byte outside of ASCII
abbrev text : List ℕ
text = 97 ∷ 32 ∷ 98 ∷ 47 ∷ 233 ∷ []

encoded : url_encode text ≡ 97 ∷ 43 ∷ 98 ∷ 37 ∷ 50 ∷ 102 ∷ 37 ∷ 101 ∷ 57 ∷ []
unfolding url_encode
encoded = refl

url_decode-url_encode_example : url_decode (url_encode text) ≡ text
url_decode-url_encode_example = url_decode-url_encode text (omega arith)

length-url_encode_example : length (url_encode text) + 1 ≤ allocated text
length-url_encode_example = length-url_encode text

-- The header "A: 1", once more as "A: 2", and a body in two chunks.
abbrev small_response : List Part
small_response =
    header (65 ∷ []) (49 ∷ [])
    ∷ header (65 ∷ []) (50 ∷ [])
    ∷ content (97 ∷ [])
    ∷ content (98 ∷ [])
    ∷ []

execute-reports_example :
    ((key : List ℕ)
      → get key (execute (reports small_response) make_parser).headers
        ≡ or_else (get key make_parser.headers) (first_value key small_response))
    × ((execute (reports small_response) make_parser).body
        ≡ make_parser.body ++ contents small_response)
    × ((execute (reports small_response) make_parser).finished ≡ true)
unfolding make_parser
execute-reports_example = execute-reports small_response make_parser tt

-- One digit is enough.
abbrev digit : ℕ → List ℕ
digit n = (48 + n) ∷ []

-- A PUT of "ab" to "/", with the header "A: 1".
abbrev put_request : ReqFormater
unfolding make_formater set_header
put_request =
    set_header ((65 ∷ [], 49 ∷ []) ∷ []) (make_formater method_put (47 ∷ []) (97 ∷ 98 ∷ []))

format-IsFramed_example :
    (head : List ℕ) × ((format digit put_request).1 ≡ head ++ (lr ++ put_request.body))
    × EndsWith head lr
    × ((rest : List ℕ) × (head ≡ put_request.method ++ (32 ∷ (put_request.target ++ rest))))
    × Shows (65 ∷ []) (49 ∷ []) head
unfolding make_formater set_header get same
format-IsFramed_example =
    format-IsFramed digit put_request (65 ∷ []) (49 ∷ []) (inl refl) (tt, tt) refl (inl refl)
