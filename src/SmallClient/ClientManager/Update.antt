-- ===== src/SmallClient/ClientManager/Update.antt =====
-- What src/small_client/client_channel makes of a new set of addresses.
use sheep_cpp.Base.{
  ℕ, zero, suc, ◌%◌, ◌<◌, ◌≡◌, ◌⊎◌, refl, ap, ◌∙◌, subst, inl, inr, Bool, true, false, not, Option,
  none, some, List, [], ◌∷◌, if◌then◌else◌, ◌==◌, ==_iff, length, In, is_empty, Bool-cases,
  Option-cases, arith,
}
use sheep_cpp.SmallClient.ClientManager.{
  ClientPools, MakeClientHandler, find, put_sorted, insert, remove_addr, add_addr, mem, need_add,
  need_remove, add_all, remove_all, update, RandomLbPolicy, update_keys, get_elem?, Got, key,
  not_ok, get,
}

abbrev pub made : MakeClientHandler → ℕ → Option ℕ
made handler k = if not (is_empty (handler k).0) then none else some (handler k).1

abbrev pub or : Option ℕ → Option ℕ → Option ℕ
or none o = o
or (some c) o = some c

-- The pool of `k` after an update to `nodes`.
abbrev pub wanted : MakeClientHandler → List ℕ → ClientPools → ℕ → Option ℕ
wanted handler nodes ps k = if mem k nodes then or (find k ps) (made handler k) else none

find-put_sorted :
    (k c j : ℕ) (ps : ClientPools)
    → find k ps ≡ none
    → find j (put_sorted k c ps) ≡ (if j == k then some c else find j ps)
unfolding find put_sorted
find-put_sorted k c j [] e = refl
find-put_sorted k c j ((i, d) ∷ ps) e =
    let r = find-put_sorted k c j ps (ground (arith, e)) in ground (arith, r, e)

find-add_same :
    (handler : MakeClientHandler) (k : ℕ) (ps : ClientPools)
    → find k (add_addr handler k ps) ≡ or (find k ps) (made handler k)
unfolding add_addr insert
find-add_same handler k ps = elim (Option-cases (find k ps)) [
  | inl e ↦ let r = find-put_sorted k (handler k).1 k ps e in ground (arith, e, r)
  | inr (c, e) ↦ ground (arith, e)
]

find-add_other :
    (handler : MakeClientHandler) (k j : ℕ) (ps : ClientPools)
    → (j == k) ≡ false
    → find j (add_addr handler k ps) ≡ find j ps
unfolding add_addr insert
find-add_other handler k j ps b = elim (Option-cases (find k ps)) [
  | inl e ↦ let r = find-put_sorted k (handler k).1 j ps e in ground (arith, e, r, b)
  | inr (c, e) ↦ ground (arith, e)
]

or_twice : (a b : Option ℕ) → or (or a b) b ≡ or a b
or_twice (some a) b = refl
or_twice none none = refl
or_twice none (some b) = refl

find-add_all :
    (handler : MakeClientHandler) (ks : List ℕ) (j : ℕ) (ps : ClientPools)
    → find j (add_all handler ks ps)
      ≡ (if mem j ks then or (find j ps) (made handler j) else find j ps)
unfolding add_all mem
find-add_all handler [] j ps = refl
find-add_all handler (k ∷ ks) j ps =
    let r = find-add_all handler ks j (add_addr handler k ps) in
    elim (Bool-cases (j == k)) [
      | inl b ↦
          let q : find j (add_addr handler k ps) ≡ or (find j ps) (made handler j) =
            subst (λ i. find j (add_addr handler i ps) ≡ or (find j ps) (made handler j))
              ((==_iff j k).0 b) (find-add_same handler j ps) in
          let t = or_twice (find j ps) (made handler j) in r ∙ rw (b, q) (both (mem j ks) _ t)
      | inr b ↦ let q = find-add_other handler k j ps b in r ∙ rw (b, q) refl
    ]
  where
    both :
        (c : Bool) (o : Option ℕ)
        → or o (made handler j) ≡ o
        → (if c then or o (made handler j) else o) ≡ o
    both true o t = t
    both false o t = refl

find-remove_addr :
    (k j : ℕ) (ps : ClientPools) → find j (remove_addr k ps) ≡ (if j == k then none else find j ps)
unfolding find remove_addr
find-remove_addr k j [] = ground arith
find-remove_addr k j ((i, c) ∷ ps) = let r = find-remove_addr k j ps in ground (arith, r)

find-remove_all :
    (ks : List ℕ) (j : ℕ) (ps : ClientPools)
    → find j (remove_all ks ps) ≡ (if mem j ks then none else find j ps)
unfolding remove_all mem
find-remove_all [] j ps = refl
find-remove_all (k ∷ ks) j ps =
    let r = find-remove_all ks j (remove_addr k ps) in
    let t = find-remove_addr k j ps in ground (arith, r, t)

mem-need_add :
    (j : ℕ) (nodes : List ℕ) (ps : ClientPools)
    → mem j (need_add nodes ps)
      ≡ (if mem j nodes then elim (find j ps) [ none ↦ true | some c ↦ false ] else false)
unfolding need_add mem
mem-need_add j [] ps = refl
mem-need_add j (k ∷ nodes) ps =
    let r = mem-need_add j nodes ps in
    elim (Bool-cases (j == k)) [
      | inl b ↦
          let q = (==_iff j k).0 b in
          let f : find j ps ≡ find k ps = ap (λ i. find i ps) q in
          elim (Option-cases (find k ps)) [
            | inl e ↦ let g = f ∙ e in ground (arith, e, g, b)
            | inr (c, e) ↦ let g = f ∙ e in ground (arith, e, g, b, r)
          ]
      | inr b ↦ elim (Option-cases (find k ps)) [
        | inl e ↦ ground (arith, e, r, b)
        | inr (c, e) ↦ ground (arith, e, r, b)
      ]
    ]

kept_nodes :
    (j : ℕ) (nodes : List ℕ) (ps : ClientPools)
    → mem j nodes ≡ true
    → mem j (need_remove nodes ps) ≡ false
unfolding need_remove mem
kept_nodes j nodes [] m = refl
kept_nodes j nodes ((k, c) ∷ ps) m =
    let r = kept_nodes j nodes ps m in
    elim (Bool-cases (j == k)) [
      | inl b ↦ let n = subst (λ i. mem i nodes ≡ true) ((==_iff j k).0 b) m in ground (arith, r, n)
      | inr b ↦ ground (arith, r, b)
    ]

gone_nodes :
    (j c : ℕ) (nodes : List ℕ) (ps : ClientPools)
    → mem j nodes ≡ false
    → find j ps ≡ some c
    → mem j (need_remove nodes ps) ≡ true
unfolding need_remove mem find
gone_nodes j c nodes [] m f = absurd (ground (arith, f))
gone_nodes j c nodes ((k, d) ∷ ps) m f = elim (Bool-cases (j == k)) [
  | inl b ↦ let n = subst (λ i. mem i nodes ≡ false) ((==_iff j k).0 b) m in ground (arith, n, b)
  | inr b ↦ let r = gone_nodes j c nodes ps m (ground (arith, f, b)) in ground (arith, r, b)
]

-- After Update to a set of addresses, an address of the set has the pool that it had before, else
-- the one that the handler makes, and none if the handler fails; every other address has none.
pub find-update :
    (handler : MakeClientHandler) (nodes : List ℕ) (ps : ClientPools) (k : ℕ)
    → find k (update handler nodes ps) ≡ wanted handler nodes ps k
unfolding update
find-update handler nodes ps k =
    let a = find-add_all handler (need_add nodes ps) k ps in
    let r = find-remove_all (need_remove nodes ps) k (add_all handler (need_add nodes ps) ps) in
    let n = mem-need_add k nodes ps in
    elim (Bool-cases (mem k nodes)) [
      | inl m ↦
          let q = kept_nodes k nodes ps m in
          elim (Option-cases (find k ps)) [
            | inl e ↦ ground (arith, a, r, n, m, q, e)
            | inr (c, e) ↦ ground (arith, a, r, n, m, q, e)
          ]
      | inr m ↦ elim (Option-cases (find k ps)) [
        | inl e ↦ ground (arith, a, r, n, m, e)
        | inr (c, e) ↦ let q = gone_nodes k c nodes ps m e in ground (arith, a, r, n, m, q, e)
      ]
    ]

get_elem?-In : (i : ℕ) (ks : List ℕ) → i < length ks → (k : ℕ) × (get_elem? ks i ≡ some k) × In k ks
get_elem?-In i [] l = absurd (omega arith)
get_elem?-In zero (k ∷ ks) l = (k, refl, inl refl)
get_elem?-In (suc i) (k ∷ ks) l = let (x, e, h) = get_elem?-In i ks (omega arith) in (x, e, inr h)

abbrev pub GetsOneOf : List ℕ → Got → Type 0
GetsOneOf keys g = ((keys ≡ []) × (g ≡ not_ok)) ⊎ ((k : ℕ) × (g ≡ key k) × In k keys)

-- After UpdateAllWithoutWeight, whatever the engine gives: Get is not ok if there are no keys,
-- and else returns one of the keys.
pub get-GetsOneOf :
    (random : ℕ) (keys : List ℕ) (p : RandomLbPolicy)
    → GetsOneOf keys (get random (update_keys keys p))
unfolding get update_keys
get-GetsOneOf random [] p = inl (refl, refl)
get-GetsOneOf random (x ∷ keys) p =
    let n = length (x ∷ keys) in
    let (k, e, h) = get_elem?-In (random % n) (x ∷ keys) (omega arith) in
    inr (k, ground (arith, e), h)
