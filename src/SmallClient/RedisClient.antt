-- ===== src/SmallClient/RedisClient.antt =====
-- RedisClient of src/small_client/redis_client.h, on the buffer of its connection. The reader of
-- hiredis is a parameter: a type of readers, what feeding does, and what redisReaderGetReply gives.
pub mod Reply
use sheep_cpp.Base.{
  ℕ, zero, suc, Bool, true, false, Option, none, some, List, [], ◌∷◌, ◌++◌, if◌then◌else◌, ErrMsg,
  empty, says,
}
use sheep_cpp.Net.Buffer.{Buffer, ◌>>=◌, pop_head, push}

-- r->type
pub data ReplyType : Type 0 where
  reply_string reply_array reply_integer reply_nil reply_status reply_error : ReplyType

-- redisReply: r->str with r->len, where a null pointer has the length 0, and the strings of the
-- elements.
pub record RedisReply : Type 0 where
  pub type : ReplyType
  pub str : List ℕ
  pub element : List (Option (List ℕ))

-- redisReaderGetReply: an error, no reply yet, or a reply.
pub data GotReply : Type 0 where
  failed : GotReply
  no_reply : GotReply
  reply : RedisReply → GotReply

pub record RedisReader (R : Type 0) : Type 0 where
  pub create : R
  pub feed : List ℕ → R → R
  pub get_reply : R → R × GotReply

pub record RedisClient (R : Type 0) : Type 0 where
  pub reader : R
  pub value : List ℕ
  pub array_values : List (List ℕ)
  -- respType_, which is 0 before a reply
  pub resp_type : Option ReplyType

unfoldable pub make_client : {R : Type 0} → RedisReader R → RedisClient R
make_client h = record { reader = h.create; value = []; array_values = []; resp_type = none }

-- ReqPush, on what redisFormatCommand gives; `none` is a negative length.
unfoldable pub req_push : Option (List ℕ) → Buffer → Option (Buffer × ErrMsg)
unfolding push
req_push none b = some (b, says "redisFormatCommand error! len = ")
req_push (some cmd) b = do b1 ← push cmd b; some (b1, empty)

-- The loop of RespPop, for at most `fuel` reads: one that gives nothing ends it.
unfoldable pub fed :
    {R : Type 0}
    → RedisReader R
    → (Buffer → R → Option (Buffer × R))
    → R
    → Option (List ℕ × Buffer)
    → Option (Buffer × R)
fed h again r none = none
fed h again r (some ([], b)) = some (b, r)
fed h again r (some (x ∷ xs, b)) = again b (h.feed (x ∷ xs) r)

unfoldable pub feed_all : {R : Type 0} → RedisReader R → ℕ → Buffer → R → Option (Buffer × R)
unfolding pop_head fed
feed_all h zero b r = none
feed_all h (suc fuel) b r = fed h (feed_all h fuel) r (pop_head 1024 b)

-- The strings of an array; a null one is read: none.
unfoldable pub push_all : List (Option (List ℕ)) → List (List ℕ) → Option (List (List ℕ))
push_all [] vs = some vs
push_all (none ∷ es) vs = none
push_all (some s ∷ es) vs = push_all es (vs ++ s ∷ [])

-- What RespPop does with a reply, with its message and the bool finish, which the caller declares
-- without a value: `junk` is what stands there.
unfoldable pub take_reply :
    {R : Type 0} → Bool → RedisClient R → GotReply → Option (RedisClient R × ErrMsg × Bool)
unfolding push_all
take_reply junk c failed = some (c, says "redisReaderGetReply error: ", true)
take_reply junk c no_reply = some (c, empty, junk)
take_reply junk c (reply r) = elim r.type [
  | reply_error ↦ some (c, says "redisReply return REDIS_REPLY_ERROR", true)
  | reply_nil ↦ some (record c { resp_type = some reply_nil }, empty, true)
  | reply_array ↦ elim (push_all r.element c.array_values) [
    | none ↦ none
    | some vs ↦ some (record c { resp_type = some reply_array; array_values = vs }, empty, true)
  ]
  | t ↦ some (record c { resp_type = some t; value = c.value ++ r.str }, empty, true)
]

-- RespPop
unfoldable pub resp_pop :
    {R : Type 0}
    → RedisReader R
    → ℕ
    → Bool
    → Buffer
    → RedisClient R
    → Option (Buffer × RedisClient R × ErrMsg × Bool)
unfolding feed_all take_reply
resp_pop h fuel junk b c = do
  (b1, r) ← feed_all h fuel b c.reader
  (c1, e, finish) ← take_reply junk (record c { reader = (h.get_reply r).0 }) (h.get_reply r).1
  some (b1, c1, e, finish)

-- What GetResp gives: ok is false, with or without an error, or it is true.
pub data Resp (A : Type 0) : Type 0 where
  nil : Resp A
  wrong : ErrMsg → Resp A
  ok : A → Resp A

-- GetResp of an int64_t, where std::stoll gives none if it throws.
unfoldable pub get_int : {R : Type 0} → (List ℕ → Option ℕ) → RedisClient R → Resp ℕ
get_int stoll c = elim c.resp_type [
  | some reply_nil ↦ nil
  | some reply_integer ↦ elim (stoll c.value) [
    | none ↦ wrong (says "std::exception")
    | some n ↦ ok n
  ]
  | some reply_string ↦ elim (stoll c.value) [
    | none ↦ wrong (says "std::exception")
    | some n ↦ ok n
  ]
  | _ ↦ wrong (says "invalid resp type")
]

-- GetResp of a string
unfoldable pub get_string : {R : Type 0} → RedisClient R → Resp (List ℕ)
get_string c = elim c.resp_type [
  | some reply_nil ↦ nil
  | some reply_string ↦ ok c.value
  | _ ↦ wrong (says "invalid resp type")
]

-- GetResp of a vector of strings
unfoldable pub get_array : {R : Type 0} → RedisClient R → Resp (List (List ℕ))
get_array c = elim c.resp_type [
  | some reply_nil ↦ nil
  | some reply_array ↦ ok c.array_values
  | _ ↦ wrong (says "invalid resp type")
]
