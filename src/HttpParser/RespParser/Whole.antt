-- ===== src/HttpParser/RespParser/Whole.antt =====
-- What the callbacks of src/extends/small_http_parser/resp_parser.cpp keep of a response.
use mathlib.Core.List.{append_assoc, append-nil}
use sheep_cpp.Base.{
  ℕ, ◌≡◌, refl, sym, ap, ◌∙◌, inl, inr, true, Option, none, some, List, [], ◌∷◌, ◌++◌,
  if◌then◌else◌, Bool-cases, Option-cases,
}
use sheep_cpp.HttpParser.Map.{
  Map, same, same_refl, same-eq, set, get, get-set, get-set_other, set_twice,
}
use sheep_cpp.HttpParser.Map.Sorted.{IsSorted, set-IsSorted, get-set_kept}
use sheep_cpp.HttpParser.RespParser.{
  RespParser, Callback, header_field, header_value, body_part, message_end, on_callback, execute,
}

-- A response that http_parser reports in whole headers.
pub data Part : Type 0 where
  header : List ℕ → List ℕ → Part
  content : List ℕ → Part

abbrev pub reports : List Part → List Callback
reports [] = message_end ∷ []
reports (header name value ∷ ps) = header_field name ∷ header_value value ∷ reports ps
reports (content c ∷ ps) = body_part c ∷ reports ps

abbrev pub first_value : List ℕ → List Part → Option (List ℕ)
first_value key [] = none
first_value key (header name value ∷ ps) =
    let rest = first_value key ps in if same key name then some value else rest
first_value key (content c ∷ ps) = first_value key ps

abbrev pub or_else : Option (List ℕ) → Option (List ℕ) → Option (List ℕ)
or_else none o = o
or_else (some a) o = some a

abbrev pub contents : List Part → List ℕ
contents [] = []
contents (header name value ∷ ps) = contents ps
contents (content c ∷ ps) = c ++ contents ps

or_else-none : (o : Option (List ℕ)) → or_else o none ≡ o
or_else-none none = refl
or_else-none (some a) = refl

-- What a header adds for each key.
get-set_all :
    (key name value : List ℕ) (m : Map) (later : Option (List ℕ))
    → IsSorted m
    → or_else (get key (set name value m)) later
      ≡ or_else (get key m) (if same key name then some value else later)
get-set_all key name value m later s = elim (Bool-cases (same key name)) [
  | inl t ↦
      rw (same-eq key name t, same_refl name)
        (elim (Option-cases (get name m)) [
          | inl e ↦ rw (get-set name value m e, e) refl
          | inr (w, e) ↦ rw (get-set_kept name value w m s e, e) refl
        ])
  | inr t ↦ rw (t, get-set_other key name value m t) refl
]

-- On the callbacks of a response whose header fields and values http_parser reports in one piece
-- each, where the keys of the headers so far are in order: Get then finds for each key the value
-- that was there, else the value of the first header of the response with this key, else none;
-- the body is what it was followed by its pieces; and the response is finished.
pub execute-reports :
    (ps : List Part) (t : RespParser)
    → IsSorted t.headers
    → ((key : List ℕ)
        → get key (execute (reports ps) t).headers
          ≡ or_else (get key t.headers) (first_value key ps))
      × ((execute (reports ps) t).body ≡ t.body ++ contents ps)
      × ((execute (reports ps) t).finished ≡ true)
unfolding execute on_callback
execute-reports [] t s =
    (λ key. sym (or_else-none (get key t.headers)), sym (append-nil t.body), refl)
execute-reports (header name value ∷ ps) t s =
    let t' = record t { headers = set name value t.headers; tmp_field = name } in
    let (a, b, d) = execute-reports ps t' (set-IsSorted name value t.headers s) in
    (λ key. a key ∙ get-set_all key name value t.headers (first_value key ps) s, b, d)
execute-reports (content c ∷ ps) t s =
    let (a, b, d) = execute-reports ps (record t { body = t.body ++ c }) s in
    (a, b ∙ append_assoc t.body c (contents ps), d)

-- Where the value of a header that is not there yet is reported in two pieces, the headers keep
-- the first piece alone.
split_value :
    (name first second : List ℕ) (t : RespParser)
    → get name t.headers ≡ none
    → let u = execute (header_field name ∷ header_value first ∷ header_value second ∷ []) t in
      (get name u.headers ≡ some first) × (u.headers ≡ set name first t.headers)
unfolding execute on_callback
split_value name first second t e =
    let q = set_twice name first second t.headers in
    (ap (get name) q ∙ get-set name first t.headers e, q)
