-- ===== src/HttpParser/ReqFormater/Framing.antt =====
-- How src/extends/small_http_parser/req_formater.cpp marks the end of a request.
use mathlib.Core.List.{append_assoc}
use sheep_cpp.Base.{
  ℕ, ◌≡◌, ◌⊎◌, refl, sym, ap, ◌∙◌, subst, inl, inr, true, false, none, some, List, [], ◌∷◌, ◌++◌,
  if◌then◌else◌, Bool-cases, length, arith,
}
use sheep_cpp.HttpParser.Map.{Map, same, same-eq, set, get, get-set, get-set_other}
use sheep_cpp.HttpParser.Map.Sorted.{IsSorted, set-IsSorted, get-set_kept}
use sheep_cpp.HttpParser.ReqFormater.{
  ReqFormater, content_length, host_key, lr, version, method_put, method_post, has_body, is_nil,
  add_headers, lines, queries, format,
}

host_is_other : same content_length host_key ≡ false
unfolding same
host_is_other = refl

-- The headers that a request is to show: those of the user, the length of the body, and the host
-- where the user has none.
abbrev pub Wanted : (ℕ → List ℕ) → ReqFormater → List ℕ → List ℕ → Type 0
Wanted to_string r key value =
    (get key r.headers ≡ some value)
    ⊎ ((key ≡ content_length) × (value ≡ to_string (length r.body)))
    ⊎ ((key ≡ host_key)
        × (value ≡ r.host)
        × (is_nil r.host ≡ false)
        × (get host_key r.headers ≡ none))

abbrev pub IsPut : ReqFormater → Type 0
IsPut r = (r.method ≡ method_put) ⊎ (r.method ≡ method_post)

has_body-IsPut : (r : ReqFormater) → IsPut r → has_body r.method ≡ true
unfolding has_body same
has_body-IsPut r (inl e) = rw e refl
has_body-IsPut r (inr e) = rw e refl

-- A value that is wanted of a map stays when the length is set, and the length is there.
with_length :
    (n key value : List ℕ) (m : Map)
    → IsSorted m
    → get content_length m ≡ none
    → (get key m ≡ some value) ⊎ ((key ≡ content_length) × (value ≡ n))
    → get key (set content_length n m) ≡ some value
with_length n key value m s absent (inl e) = elim (Bool-cases (same key content_length)) [
  | inl t ↦ absurd (
      subst (λ k. get k m ≡ some value → ⊥) (sym (same-eq key content_length t))
        (λ q. let z = sym absent ∙ q in cc) e)
  | inr t ↦ get-set_other key content_length n m t ∙ e
]
with_length n key value m s absent (inr (e, f)) = rw (e, f) (get-set content_length n m absent)

get-add_headers :
    (to_string : ℕ → List ℕ) (r : ReqFormater) (key value : List ℕ)
    → IsPut r
    → IsSorted r.headers
    → get content_length r.headers ≡ none
    → Wanted to_string r key value
    → get key (add_headers to_string r) ≡ some value
unfolding add_headers
get-add_headers to_string r key value put s absent w =
    let b = has_body-IsPut r put in
    let n = to_string (length r.body) in
    let host = set host_key r.host r.headers in
    elim (Bool-cases (is_nil r.host)) [
      | inl t ↦
          rw (b, t)
            (with_length n key value r.headers s absent (elim w [
              | inl e ↦ inl e
              | inr (inl e) ↦ inr e
              | inr (inr (x, y, z, k)) ↦ absurd (let q = sym t ∙ z in cc)
            ]))
      | inr t ↦
          rw (b, t)
            (with_length n key value host (set-IsSorted host_key r.host r.headers s)
              (get-set_other content_length host_key r.host r.headers host_is_other ∙ absent)
              (elim w [
                | inl e ↦ inl (kept key value r.host r.headers s e)
                | inr (inl e) ↦ inr e
                | inr (inr (x, y, z, k)) ↦ inl (rw (x, y) (get-set host_key r.host r.headers k))
              ]))
    ]
  where
    kept :
        (key value h : List ℕ) (m : Map)
        → IsSorted m
        → get key m ≡ some value
        → get key (set host_key h m) ≡ some value
    kept key value h m s e = elim (Bool-cases (same key host_key)) [
      | inl t ↦
          subst (λ k. get k m ≡ some value → get k (set host_key h m) ≡ some value)
            (sym (same-eq key host_key t)) (get-set_kept host_key h value m s) e
      | inr t ↦ get-set_other key host_key h m t ∙ e
    ]

-- A line of its own, behind another line.
abbrev pub Shows : List ℕ → List ℕ → List ℕ → Type 0
Shows key value text =
    (before : List ℕ) × (after : List ℕ) × (text
      ≡ before ++ (lr ++ (key ++ (58 ∷ 32 ∷ (value ++ (lr ++ after))))))

abbrev pub EndsWith : List ℕ → List ℕ → Type 0
EndsWith text end = (front : List ℕ) × (text ≡ front ++ end)

abbrev line : List ℕ → List ℕ → List ℕ
line k v = lr ++ (k ++ (58 ∷ 32 ∷ v))

line_then : (k v : List ℕ) (m : Map) → lr ++ lines ((k, v) ∷ m) ≡ line k v ++ (lr ++ lines m)
unfolding lines
line_then k v m = simp append_assoc

lines-EndsWith : (m : Map) → EndsWith (lr ++ lines m) lr
unfolding lines
lines-EndsWith [] = ([], refl)
lines-EndsWith ((k, v) ∷ m) =
    let (front, e) = lines-EndsWith m in
    let one = line k v in
    (one ++ front, line_then k v m ∙ ap (λ z. one ++ z) e ∙ sym (append_assoc one front lr))

lines-Shows :
    (key value : List ℕ) (m : Map) → get key m ≡ some value → Shows key value (lr ++ lines m)
unfolding lines get
lines-Shows key value [] e = cc
lines-Shows key value ((k, v) ∷ m) e = elim (Bool-cases (same key k)) [
  | inl t ↦
      let q : v ≡ value = ground (arith, e, t) in
      ([], lines m, rw (same-eq key k t, q) (simp append_assoc))
  | inr t ↦
      let (before, after, f) = lines-Shows key value m (ground (arith, e, t)) in
      let one = line k v in
      (
        one ++ before,
        after,
        line_then k v m
            ∙ ap (λ z. one ++ z) f
            ∙ sym (append_assoc one before (lr ++ (key ++ (58 ∷ 32 ∷ (value ++ (lr ++ after)))))),
      )
]

-- For a PUT or POST whose headers are in the order of their keys and have no Content-Length,
-- whatever std::to_string gives: what Format returns is a head that begins with the method, a
-- space and the target and ends with the end of a line, then an empty line and the body; and the
-- head has, as a line of its own, each header of the user, Content-Length with what
-- std::to_string gives for the length of the body, and Host with the host, if it is not empty and
-- the user has no such header.
pub format-IsFramed :
    (to_string : ℕ → List ℕ) (r : ReqFormater) (key value : List ℕ)
    → IsPut r
    → IsSorted r.headers
    → get content_length r.headers ≡ none
    → Wanted to_string r key value
    → (head : List ℕ) × ((format to_string r).1 ≡ head ++ (lr ++ r.body))
      × EndsWith head lr
      × ((rest : List ℕ) × (head ≡ r.method ++ (32 ∷ (r.target ++ rest))))
      × Shows key value head
unfolding format
format-IsFramed to_string r key value put s absent w =
    let q = queries 63 r.query_strings in
    let start = r.method ++ (32 ∷ ((r.target ++ q) ++ version)) in
    let m = add_headers to_string r in
    let head = start ++ (lr ++ lines m) in
    let (front, e) = lines-EndsWith m in
    let (before, after, f) =
      lines-Shows key value m (get-add_headers to_string r key value put s absent w) in
    let pre = r.method ++ 32 ∷ (r.target ++ q) ++ version ++ lr ++ lines m in
    let body : (if has_body r.method then r.body else []) ≡ r.body =
      rw (has_body-IsPut r put) refl in
    let shown = lr ++ (key ++ (58 ∷ 32 ∷ (value ++ (lr ++ after)))) in
    (
      head,
      ap (λ t. pre ++ lr ++ t) body ∙ whole (r.target ++ q) (lines m),
      (start ++ front, ap (λ z. start ++ z) e ∙ sym (append_assoc start front lr)),
      (q ++ (version ++ (lr ++ lines m)), simp append_assoc),
      (start ++ before, after, ap (λ z. start ++ z) f ∙ sym (append_assoc start before shown)),
    )
  where
    whole :
        (target ls : List ℕ)
        → r.method ++ 32 ∷ target ++ version ++ lr ++ ls ++ lr ++ r.body
          ≡ ((r.method ++ (32 ∷ (target ++ version))) ++ (lr ++ ls)) ++ (lr ++ r.body)
    whole target ls = simp append_assoc
