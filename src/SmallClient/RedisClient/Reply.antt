-- ===== src/SmallClient/RedisClient/Reply.antt =====
-- RespPop of src/small_client/redis_client.h on all that waits in the buffer.
use sheep_cpp.Base.{
  ℕ, ◌≡◌, refl, Bool, true, false, All, ErrMsg, Option, none, some, List, [], ◌∷◌, ◌++◌, empty,
  says,
}
use sheep_cpp.Net.Buffer.{Buffer}
use sheep_cpp.SmallClient.RedisClient.{
  ReplyType, reply_string, reply_array, reply_nil, reply_status, reply_error, RedisReply, GotReply,
  failed, no_reply, RedisReader, RedisClient, take_reply, reply, reply_integer, get_int, get_string,
  get_array, nil, ok, wrong,
}

-- A reader takes a stream: pieces are as good as the whole.
pub record IsStream {R : Type 0} (h : RedisReader R) : Type 0 where
  pub feed-nil : (r : R) → h.feed [] r ≡ r
  pub feed-feed : (xs ys : List ℕ) (r : R) → h.feed ys (h.feed xs r) ≡ h.feed (xs ++ ys) r

-- No element of an array is null.
abbrev pub strings : List (Option (List ℕ)) → List (List ℕ)
strings [] = []
strings (none ∷ es) = strings es
strings (some s ∷ es) = s ∷ strings es

abbrev AllThere : List (Option (List ℕ)) → Type 0
AllThere es = All (λ o. (s : List ℕ) × (o ≡ some s)) es

abbrev IsWholeOf : ReplyType → List (Option (List ℕ)) → Type 0
IsWholeOf reply_array es = AllThere es
IsWholeOf _ es = Unit

abbrev pub IsWhole : GotReply → Type 0
IsWhole (reply r) = IsWholeOf r.type r.element
IsWhole _ = Unit

-- What a user sees of a reply of this type.
abbrev Shown : {R : Type 0} → ReplyType → RedisReply → RedisClient R → RedisClient R → Type 0
Shown reply_string r c c' = get_string c' ≡ ok (c.value ++ r.str)
Shown reply_array r c c' = get_array c' ≡ ok (c.array_values ++ strings r.element)
Shown reply_nil r c c' = (get_string c' ≡ nil) × (get_array c' ≡ nil)
Shown reply_integer r c c' =
    (stoll : List ℕ → Option ℕ) (n : ℕ)
    → stoll (c.value ++ r.str) ≡ some n
    → get_int stoll c' ≡ ok n
Shown reply_status r c c' = get_string c' ≡ wrong (says "invalid resp type")
Shown reply_error r c c' = c'.resp_type ≡ c.resp_type

abbrev message_of : ReplyType → ErrMsg
message_of reply_error = says "redisReply return REDIS_REPLY_ERROR"
message_of _ = empty

-- What the client becomes, with the message and the bool.
abbrev pub Answered :
    {R : Type 0} → Bool → RedisClient R → GotReply → RedisClient R → ErrMsg → Bool → Type 0
Answered junk c failed c' e finish = (e ≡ says "redisReaderGetReply error: ") × (finish ≡ true)
Answered junk c no_reply c' e finish =
    (e ≡ empty) × (finish ≡ junk) × (c'.value ≡ c.value) × (c'.resp_type ≡ c.resp_type)
Answered junk c (reply r) c' e finish =
    (e ≡ message_of r.type) × (finish ≡ true) × Shown r.type r c c'

-- For a reply of an integer, whose text hiredis leaves empty, to a client that has read nothing,
-- where std::stoll throws on an empty string: GetResp of a number is an error.
integer_unread :
    {R : Type 0} (stoll : List ℕ → Option ℕ) (c : RedisClient R) (es : List (Option (List ℕ)))
    → c.value ≡ []
    → stoll [] ≡ none
    → (d : RedisClient R) × (take_reply false c
          (reply (record { type = reply_integer; str = []; element = es }))
        ≡ some (d, empty, true))
      × (get_int stoll d ≡ wrong (says "std::exception"))
unfolding take_reply get_int
integer_unread stoll c es e t = (
  record c { resp_type = some reply_integer; value = c.value ++ [] },
  refl,
  rw (e, get_int, t) refl,
)
