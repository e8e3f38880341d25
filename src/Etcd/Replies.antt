-- ===== src/Etcd/Replies.antt =====
-- The handlers of src/extends/small_watcher/etcd/etcd.cpp: what it does with a reply of the HttpClient and
-- with the end of a Timer. Of a reply the model has what the code asks rapidjson and the headers for.
use sheep_cpp.Base.{
  ℕ, ◌+◌, ◌%◌, ◌^◌, Bool, true, false, Option, none, some, List, [], ◌∷◌, String, if◌then◌else◌,
  ◌==◌, ErrMsg, is_empty, without,
}
use sheep_cpp.Etcd.{
  ListError, no_error, client_failed, parse_failed, error_code, invalid_index, ListHandler,
  user_list, list_watch, NotifyHandler, user_notify, watch_again, Task, creating, refreshing,
  listing, watching, Alarm, create_later, refresh_later, watch_later, listed, notified, Etcd,
  async_wait, erase_client, next_create_ephemeral, next_refresh, create_ephemeral, refresh, watch,
  start_list_watch,
}

-- A member of a JSON object, as HasMember and one of GetUint64, GetString, GetObject and GetArray
-- find it: a value of another type fails an assertion of rapidjson.
pub data Member (A : Type 0) : Type 0 where
  missing mistyped : Member A
  has : A → Member A

unfoldable pub read_member : {A : Type 0} → Member A → Option (Option A)
read_member missing = some none
read_member mistyped = none
read_member (has a) = some (some a)

-- What the code asks a JSON document for.
pub record Document : Type 0 where
  -- GetParseError and GetErrorOffset
  pub parse_error : Option (ℕ × ℕ)
  -- HasMember asserts that it is called on an object
  pub is_object : Bool
  pub code : Member ℕ
  pub message : Member String
  -- the member `node`, its array `nodes`, and the `key` of each, mistyped also if it is in no object
  pub node : Member (Member (List (Member String)))

-- What is read before a handler acts.
pub record Errors : Type 0 where
  pub parse_error : Option (ℕ × ℕ)
  pub code : Option ℕ
  pub message : Option String

abbrev read_message : Option ℕ → Member String → Option Errors
read_message none m = some (record { parse_error = none; code = none; message = none })
read_message (some code) m = elim (read_member m) [
  | none ↦ none
  | some text ↦ some (record { parse_error = none; code = some code; message = text })
]

-- The tests of an error in a document; `none` is an assertion.
unfoldable pub read_errors : Document → Option Errors
unfolding read_member
read_errors doc = elim doc.parse_error [
  | some e ↦ some (record { parse_error = some e; code = none; message = none })
  | none ↦
      if doc.is_object
      then (elim (read_member doc.code) [ none ↦ none | some code ↦ read_message code doc.message ])
      else none
]

-- A reply of the HttpClient: the errMsg that onDone has, the document that the body parses to, and the
-- header X-Etcd-Index, where it is there.
pub record Reply : Type 0 where
  pub err : ErrMsg
  pub doc : Document
  pub header : Option String

-- onDone of createEphemeral, on what it has read
unfoldable pub created : ℕ → String → String → Errors → Etcd → Etcd
unfolding next_create_ephemeral next_refresh erase_client
created id path value doc s = elim doc.parse_error [
  | some e ↦ erase_client id (next_refresh path value s)
  | none ↦ elim doc.code [
    | some code ↦ elim doc.message [
      | some message ↦ next_create_ephemeral path value s
      | none ↦ erase_client id (next_create_ephemeral path value s)
    ]
    | none ↦ next_refresh path value s
  ]
]

-- onDone of refresh, on what it has read
unfoldable pub refreshed : ℕ → String → String → Errors → Etcd → Etcd
unfolding next_create_ephemeral next_refresh erase_client
refreshed id path value doc s = elim doc.parse_error [
  | some e ↦ erase_client id (next_refresh path value s)
  | none ↦ elim doc.code [
    | some code ↦ erase_client id (next_create_ephemeral path value s)
    | none ↦ erase_client id (next_refresh path value s)
  ]
]

-- onDone of createEphemeral and of refresh, without an error; `none` is an assertion.
unfoldable pub on_create : ℕ → String → String → Document → Etcd → Option Etcd
unfolding read_errors created
on_create id path value doc s = elim (read_errors doc) [
  | none ↦ none
  | some e ↦ some (created id path value e s)
]

unfoldable pub on_refresh : ℕ → String → String → Document → Etcd → Option Etcd
unfolding read_errors refreshed
on_refresh id path value doc s = elim (read_errors doc) [
  | none ↦ none
  | some e ↦ some (refreshed id path value e s)
]

-- onDone of createEphemeral and of refresh, with an error.
unfoldable pub on_failed : ℕ → String → Etcd → Etcd
unfolding next_create_ephemeral erase_client
on_failed id path s = erase_client id (next_create_ephemeral path path s)

-- The loop over `nodes`; `none` is an assertion.
unfoldable pub keys_of : List (Member String) → Option (List String)
keys_of [] = some []
keys_of (missing ∷ ns) = keys_of ns
keys_of (mistyped ∷ ns) = none
keys_of (has key ∷ ns) = elim (keys_of ns) [ none ↦ none | some keys ↦ some (key ∷ keys) ]

unfoldable pub read_keys : Member (Member (List (Member String))) → Option (List String)
unfolding keys_of
read_keys (has (has nodes)) = keys_of nodes
read_keys (has missing) = some []
read_keys (has mistyped) = none
read_keys missing = some []
read_keys mistyped = none

-- -1 as an int64_t
abbrev pub minus_one : ℕ
minus_one = 18446744073709551615

-- How the onDone of List ends: the arguments of the handler.
pub record Listed : Type 0 where
  pub err : ListError
  pub after_index : ℕ
  pub keys : List String

unfoldable pub list_error : ListError → Listed
list_error err = record { err = err; after_index = 0; keys = [] }

-- `stoll` gives the bits of an int64_t, or throws. The getter of the headers reads through the end
-- of the map where the header is missing. In both cases, and where an assertion fails, there is no
-- end.
unfoldable pub read_list : (String → Option ℕ) → Document → Option String → Option Listed
unfolding list_error read_errors read_keys
read_list stoll doc header = elim (read_errors doc) [
  | none ↦ none
  | some errors ↦ elim errors.parse_error [
    | some (code, offset) ↦ some (list_error (parse_failed code offset))
    | none ↦ elim errors.code [
      | some code ↦ some (list_error (error_code code errors.message))
      | none ↦ elim header [
        | none ↦ none
        | some text ↦ elim (stoll text) [
          | none ↦ none
          | some index ↦
              if index == minus_one
              then some (list_error invalid_index)
              else (elim (read_keys doc.node) [
                | none ↦ none
                | some keys ↦
                    some
                      (record { err = no_error; after_index = (index + 1) % 2 ^ 64; keys = keys })
              ])
        ]
      ]
    ]
  ]
]

abbrev pub is_no_error : ListError → Bool
is_no_error no_error = true
is_no_error _ = false

-- The handlers of List; `stop` is what the user's function sets.
unfoldable pub run_list : ListHandler → Bool → Listed → Etcd → Etcd
unfolding watch
run_list (user_list func) stop r s = record s {
  calls = listed func r.err r.after_index r.keys ∷ s.calls;
}
run_list (list_watch path func) stop r s =
    if is_no_error r.err
    then (let s' = record s { calls = listed func r.err r.after_index r.keys ∷ s.calls } in
        if stop then s' else watch r.after_index path func s')
    else watch r.after_index path func s

-- The handlers of WatchOnce.
unfoldable pub run_notify : NotifyHandler → ErrMsg → Etcd → Etcd
unfolding async_wait start_list_watch
run_notify (user_notify func) err s = record s { calls = notified func err ∷ s.calls }
run_notify (watch_again after path func) err s =
    if is_empty err
    then start_list_watch path func s
    else async_wait 5000 (watch_later after path func) s

-- onDone of List
unfoldable pub on_list : (String → Option ℕ) → Reply → Option Listed
unfolding read_list list_error
on_list stoll r =
    if is_empty r.err
    then read_list stoll r.doc r.header
    else some (list_error (client_failed r.err))

-- The onDone of a request; `none` is a crash.
unfoldable pub on_done : (String → Option ℕ) → ℕ → Task → Reply → Bool → Etcd → Option Etcd
unfolding on_create on_refresh on_failed on_list run_list run_notify erase_client
on_done stoll id (creating path value) r stop s =
    if is_empty r.err then on_create id path value r.doc s else some (on_failed id path s)
on_done stoll id (refreshing path value) r stop s =
    if is_empty r.err then on_refresh id path value r.doc s else some (on_failed id path s)
on_done stoll id (listing handler) r stop s = elim (on_list stoll r) [
  | none ↦ none
  | some l ↦ some (erase_client id (run_list handler stop l s))
]
on_done stoll id (watching handler) r stop s = some (erase_client id (run_notify handler r.err s))

-- The callback of a Timer, up to `timers_.erase`.
unfoldable pub ring : Alarm → ErrMsg → Etcd → Etcd
unfolding create_ephemeral refresh watch
ring (create_later path value) err s = create_ephemeral path value err s
ring (refresh_later path value) err s = refresh path value err s
ring (watch_later after path func) err s = watch after path func s

unfoldable pub on_timer : ℕ → Alarm → ErrMsg → Etcd → Etcd
unfolding ring
on_timer id alarm err s = let s' = ring alarm err s in record s' { timers = without id s'.timers }
