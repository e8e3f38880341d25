-- ===== src/HttpParser/ReqFormater.antt =====
-- src/extends/small_http_parser/req_formater.cpp. Strings are lists of bytes; std::to_string is an argument.
pub mod Framing
use sheep_cpp.Base.{ℕ, Bool, true, false, not, ◌||◌, List, [], ◌∷◌, ◌++◌, if◌then◌else◌, length}
use sheep_cpp.HttpParser.Map.{Map, same, set}
use sheep_cpp.HttpParser.UrlCode.{url_encode}

-- "GET", "POST", "PUT", "\r\n", "Host", "Content-Length"
abbrev pub method_get : List ℕ
method_get = 71 ∷ 69 ∷ 84 ∷ []

abbrev pub method_post : List ℕ
method_post = 80 ∷ 79 ∷ 83 ∷ 84 ∷ []

abbrev pub method_put : List ℕ
method_put = 80 ∷ 85 ∷ 84 ∷ []

abbrev pub lr : List ℕ
lr = 13 ∷ 10 ∷ []

abbrev pub host_key : List ℕ
host_key = 72 ∷ 111 ∷ 115 ∷ 116 ∷ []

abbrev pub content_length : List ℕ
content_length = 67 ∷ 111 ∷ 110 ∷ 116 ∷ 101 ∷ 110 ∷ 116 ∷ 45 ∷ 76 ∷ 101 ∷ 110 ∷ 103 ∷ 116 ∷ 104 ∷ []

-- " HTTP/1.1"
abbrev pub version : List ℕ
version = 32 ∷ 72 ∷ 84 ∷ 84 ∷ 80 ∷ 47 ∷ 49 ∷ 46 ∷ 49 ∷ []

pub record ReqFormater : Type 0 where
  pub method : List ℕ
  pub host : List ℕ
  pub target : List ℕ
  pub body : List ℕ
  pub headers : Map
  pub query_strings : Map

unfoldable pub make_formater : List ℕ → List ℕ → List ℕ → ReqFormater
make_formater method target body = record {
  method = method;
  host = [];
  target = target;
  body = body;
  headers = [];
  query_strings = [];
}

-- SetHost, SetHeader, SetQueryString
unfoldable pub set_host : List ℕ → ReqFormater → ReqFormater
set_host host r = record r { host = host }

unfoldable pub set_header : Map → ReqFormater → ReqFormater
set_header m r = record r { headers = m }

unfoldable pub set_query_string : Map → ReqFormater → ReqFormater
set_query_string m r = record r { query_strings = m }

-- The loop over the query strings: `?` before the first, and `&` before the others.
unfoldable pub queries : ℕ → Map → List ℕ
unfolding url_encode
queries flag [] = []
queries flag ((k, v) ∷ kvs) = flag ∷ url_encode k ++ 61 ∷ url_encode v ++ queries 38 kvs

unfoldable pub has_body : List ℕ → Bool
unfolding same
has_body method = same method method_put || same method method_post

abbrev pub is_nil : List ℕ → Bool
is_nil [] = true
is_nil (b ∷ bs) = false

-- The headers that Format adds to those that were set.
unfoldable pub add_headers : (ℕ → List ℕ) → ReqFormater → Map
unfolding set has_body
add_headers to_string r =
    let m = if not (is_nil r.host) then set host_key r.host r.headers else r.headers in
    if has_body r.method then set content_length (to_string (length r.body)) m else m

unfoldable pub lines : Map → List ℕ
lines [] = []
lines ((k, v) ∷ kvs) = k ++ 58 ∷ 32 ∷ v ++ lr ++ lines kvs

-- Format: the formater keeps the longer target and the headers. The result is what goes out.
unfoldable pub format : (ℕ → List ℕ) → ReqFormater → ReqFormater × List ℕ
unfolding queries add_headers lines has_body
format to_string r =
    let target = r.target ++ queries 63 r.query_strings in
    let headers = add_headers to_string r in
    (
      record r { target = target; headers = headers },
      r.method
          ++ 32 ∷ target
          ++ version
          ++ lr
          ++ lines headers
          ++ lr
          ++ (if has_body r.method then r.body else []),
    )
