-- ===== src/HttpParser/RespParser.antt =====
-- src/extends/small_http_parser/resp_parser.cpp. What http_parser makes of the bytes is an input: the
-- callbacks that it calls, its error, and how many bytes it parsed.
pub mod Whole
use sheep_cpp.Base.{
  ℕ, Bool, true, false, not, List, [], ◌∷◌, ◌++◌, if◌then◌else◌, ◌==◌, ErrMsg, empty, says, length,
}
use sheep_cpp.HttpParser.Map.{Map, set}

pub record RespParser : Type 0 where
  pub inited : Bool
  pub buf : List ℕ
  pub headers : Map
  pub tmp_field : List ℕ
  pub body : List ℕ
  pub finished : Bool

unfoldable pub make_parser : RespParser
make_parser = record {
  inited = false;
  buf = [];
  headers = [];
  tmp_field = [];
  body = [];
  finished = false;
}

pub data Callback : Type 0 where
  header_field header_value body_part : List ℕ → Callback
  message_end : Callback

-- onHeaderField, onHeaderValue, onBody, onMessageEnd
unfoldable pub on_callback : Callback → RespParser → RespParser
unfolding set
on_callback (header_field c) t = record t { tmp_field = c }
on_callback (header_value c) t = record t { headers = set t.tmp_field c t.headers }
on_callback (body_part c) t = record t { body = t.body ++ c }
on_callback message_end t = record t { finished = true }

unfoldable pub execute : List Callback → RespParser → RespParser
unfolding on_callback
execute [] t = t
execute (c ∷ cs) t = execute cs (on_callback c t)

pub record Executed : Type 0 where
  pub callbacks : List Callback
  pub http_errno : ℕ
  pub nparsed : ℕ

-- The parser, the message, and the bool that Feed sets.
unfoldable pub feed : Executed → List ℕ → RespParser → RespParser × ErrMsg × Bool
unfolding execute
feed x str t =
    let t' = execute x.callbacks (record t { inited = true; buf = t.buf ++ str }) in
    if not (x.http_errno == 0)
    then (t', says "RespParser Feed failed: ", false)
    else if not (x.nparsed == length str)
    then (t', says "RespParser Feed failed: unknown", false)
    else (t', empty, t'.finished)
