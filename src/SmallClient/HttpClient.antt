-- ===== src/SmallClient/HttpClient.antt =====
-- HttpClient of src/small_client/http_client.h, on the buffer of its connection. What http_parser
-- makes of a chunk is a parameter, as for the response parser.
use sheep_cpp.Base.{
  ℕ, zero, suc, ◌≡◌, Bool, true, false, not, Option, none, some, List, [], ◌∷◌, ◌++◌, length,
  if◌then◌else◌, ErrMsg, empty, is_empty,
}
use sheep_cpp.Net.Buffer.{Buffer, ◌>>=◌, pop_head, push}
use sheep_cpp.HttpParser.RespParser.{RespParser, make_parser, Executed, feed}
use sheep_cpp.HttpParser.ReqFormater.{ReqFormater, make_formater, set_host, format}

pub record HttpClient : Type 0 where
  pub host : List ℕ
  pub formater : ReqFormater
  pub parser : RespParser

unfoldable pub make_http_client : List ℕ → List ℕ → List ℕ → HttpClient
unfolding make_formater make_parser
make_http_client method target body = record {
  host = [];
  formater = make_formater method target body;
  parser = make_parser;
}

abbrev pub is_nil : List ℕ → Bool
is_nil [] = true
is_nil (x ∷ xs) = false

-- ReqPush, on the address of the client.
unfoldable pub req_push : (ℕ → List ℕ) → List ℕ → Buffer → HttpClient → Option (Buffer × HttpClient)
unfolding set_host format push
req_push to_string addr b c =
    let host = if is_nil c.host then addr else c.host in
    let (f, req) = format to_string (set_host host c.formater) in
    do b1 ← push req b; some (b1, record c { host = host; formater = f })

-- The loop of RespPop, with the message and the bool finish.
abbrev pub Popped : Type 0
Popped = Option (Buffer × RespParser × ErrMsg × Bool)

abbrev pub after_feed :
    (Buffer → RespParser → Bool → Popped) → Buffer → RespParser × ErrMsg × Bool → Popped
after_feed again b (t, e, finish) =
    if not (is_empty e) then some (b, t, e, finish) else again b t finish

unfoldable pub fed :
    (RespParser → List ℕ → Executed)
    → (Buffer → RespParser → Bool → Popped)
    → RespParser
    → Bool
    → Option (List ℕ × Buffer)
    → Popped
unfolding feed
fed x again t finish none = none
fed x again t finish (some ([], b)) = some (b, t, empty, finish)
fed x again t finish (some (c ∷ cs, b)) = after_feed again b (feed (x t (c ∷ cs)) (c ∷ cs) t)

unfoldable pub feed_all : (RespParser → List ℕ → Executed) → ℕ → Buffer → RespParser → Bool → Popped
unfolding fed pop_head
feed_all x zero b t finish = none
feed_all x (suc fuel) b t finish = fed x (feed_all x fuel) t finish (pop_head 1024 b)

-- RespPop, for at most `fuel` reads.
unfoldable pub resp_pop : (RespParser → List ℕ → Executed) → ℕ → Buffer → HttpClient → Popped
unfolding feed_all
resp_pop x fuel b c = feed_all x fuel b c.parser false

-- The bytes c behind those that it had are taken by http_parser in pieces: after any of them, and
-- from whatever it has made of the message, it takes the next piece whole and finds no error.
abbrev pub Accepts : (RespParser → List ℕ → Executed) → List ℕ → List ℕ → Type 0
Accepts x had c =
    (t : RespParser) (p s q : List ℕ)
    → t.buf ≡ had ++ p
    → c ≡ p ++ (s ++ q)
    → ((x t s).http_errno ≡ 0) × ((x t s).nparsed ≡ length s)
