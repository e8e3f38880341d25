-- ===== src/Net/AsyncerPoller/Order.antt =====
-- The order of the events in src/net/common/poller/asyncer_poller.cpp.
use sheep_cpp.Base.{
  ℕ, suc, ◌+◌, ◌<◌, ◌≡◌, ◌≢◌, refl, sym, ap, subst, ◌∙◌, inl, inr, ◌⊎◌, true, false, Option, none,
  some, List, [], ◌∷◌, ◌++◌, map, if◌then◌else◌, ◌==◌, All, All-append, In, Distinct,
  Distinct-without, Distinct-snoc, without, without-eq_of_not_In, Bool-cases, Option-cases, arith,
}
use sheep_cpp.Net.AsyncerPoller.{
  AsyncerPoller, make_asyncer_poller, put, erase_node, remove_event, update_event,
}

abbrev pub ids_of : List (ℕ × ℕ) → List ℕ
ids_of q = map (λ p. p.1) q

-- The poller watches `ids`: every node knows its id, and the map leads from the id to the node.
pub record Watches (p : AsyncerPoller) (ids : List ℕ) : Type 0 where
  pub owner : ℕ → ℕ
  pub owned : (i n : ℕ) → p.event_map i ≡ some n → (owner n ≡ i) × (n < p.next_node)
  pub agrees : All (λ q. p.event_map q.1 ≡ some q.0) p.events
  pub view : ids_of p.events ≡ ids
  pub distinct : Distinct ids

pub make-Watches : Watches make_asyncer_poller []
unfolding make_asyncer_poller
make-Watches = record {
  owner = λ n. 0;
  owned = λ i n e. cc;
  agrees = tt;
  view = refl;
  distinct = tt;
}

module _ (f : ℕ → Option ℕ) (owner : ℕ → ℕ) (top : ℕ)
    (owned : (i n : ℕ) → f i ≡ some n → (owner n ≡ i) × (n < top)) where
  ids_of-erase_node :
      (n i : ℕ) (q : List (ℕ × ℕ))
      → f i ≡ some n
      → All (λ p. f p.1 ≡ some p.0) q
      → ids_of (erase_node n q) ≡ without i (ids_of q)
  unfolding erase_node
  ids_of-erase_node n i [] e a = refl
  ids_of-erase_node n i ((m, j) ∷ q) e a =
      let r = ids_of-erase_node n i q e a.1 in
      let (u, _) = owned i n e in
      let (v, _) = owned j m a.0 in
      elim (Bool-cases (m == n)) [
        | inl g ↦ ground (arith, r)
        | inr g ↦
            let d : j ≢ i = λ x. some_ne m n (subst (λ k. f k ≡ some m) x a.0) e g in
            ground (arith, r, d)
      ]
    where
      some_ne : (m n : ℕ) → f i ≡ some m → f i ≡ some n → (m == n) ≡ false → ⊥
      some_ne m n x y g = ground arith

  erase_node-agrees :
      (n i : ℕ) (q : List (ℕ × ℕ))
      → f i ≡ some n
      → All (λ p. f p.1 ≡ some p.0) q
      → All (λ p. put f i none p.1 ≡ some p.0) (erase_node n q)
  unfolding erase_node
  erase_node-agrees n i [] e a = tt
  erase_node-agrees n i ((m, j) ∷ q) e a =
      let r = erase_node-agrees n i q e a.1 in
      elim (Bool-cases (m == n)) [
        | inl g ↦ ground (arith, r)
        | inr g ↦ let z = a.0 in ground (arith, r, z)
      ]

unwatched :
    (f : ℕ → Option ℕ) (i : ℕ) (q : List (ℕ × ℕ))
    → f i ≡ none
    → All (λ p. f p.1 ≡ some p.0) q
    → ¬ In i (ids_of q)
unwatched f i [] e a h = h
unwatched f i ((n, j) ∷ q) e a (inl g) = let z = a.0 in ground (arith, e, z, g)
unwatched f i (p ∷ q) e a (inr h) = unwatched f i q e a.1 h

-- On an asyncer poller that watches the events ids, RemoveEvent leaves a poller that watches the
-- others in the same order.
pub remove_event-Watches :
    (id : ℕ) (p : AsyncerPoller) (ids : List ℕ)
    → Watches p ids
    → Watches (remove_event id p) (without id ids)
unfolding remove_event
remove_event-Watches id p ids w = elim (Option-cases (p.event_map id)) [
  | inl e ↦
      let out = subst (λ l. ¬ In id l) w.view (unwatched p.event_map id p.events e w.agrees) in
      rw (e, remove_event, without-eq_of_not_In id ids out) w
  | inr (n, e) ↦
      rw (e, remove_event)
        record {
          owner = w.owner;
          owned = λ i m g. kept i m (Bool-cases (i == id)) g;
          agrees =
              erase_node-agrees p.event_map w.owner p.next_node w.owned n id p.events e w.agrees;
          view =
              ids_of-erase_node p.event_map w.owner p.next_node w.owned n id p.events e w.agrees
              ∙ ap (without id) w.view;
          distinct = Distinct-without id ids w.distinct;
        }
]
  where
    kept :
        (i m : ℕ)
        → ((i == id) ≡ true) ⊎ ((i == id) ≡ false)
        → put p.event_map id none i ≡ some m
        → (w.owner m ≡ i) × (m < p.next_node)
    kept i m (inl b) g = absurd (ground arith)
    kept i m (inr b) g = w.owned i m (ground arith)

put-agrees :
    (f : ℕ → Option ℕ) (i n : ℕ) (q : List (ℕ × ℕ))
    → ¬ In i (ids_of q)
    → All (λ p. f p.1 ≡ some p.0) q
    → All (λ p. put f i (some n) p.1 ≡ some p.0) q
put-agrees f i n [] o a = tt
put-agrees f i n ((m, j) ∷ q) o a =
    let r = put-agrees f i n q (λ h. o (inr h)) a.1 in
    let z = a.0 in let d : j ≢ i = λ e. o (inl (sym e)) in (ground (arith, z, d), r)

ids_of-append : (q r : List (ℕ × ℕ)) → ids_of (q ++ r) ≡ ids_of q ++ ids_of r
ids_of-append [] r = refl
ids_of-append ((n, i) ∷ q) r = ap (◌∷◌ i) (ids_of-append q r)

update_new :
    (fuel id : ℕ) (p : AsyncerPoller) (ids : List ℕ)
    → p.event_map id ≡ none
    → Watches p ids
    → (p' : AsyncerPoller) × (update_event (suc fuel) id p ≡ some p') × Watches p' (ids ++ id ∷ [])
unfolding update_event
update_new fuel id p ids e w =
    let out = unwatched p.event_map id p.events e w.agrees in
    (
      record p {
        events = p.events ++ (p.next_node, id) ∷ [];
        event_map = put p.event_map id (some p.next_node);
        next_node = p.next_node + 1;
      },
      ground (arith, e),
      record {
        owner = λ n. if n == p.next_node then id else w.owner n;
        owned = λ i m g. owns i m (Bool-cases (i == id)) g;
        agrees =
            All-append _ p.events _ (put-agrees p.event_map id p.next_node p.events out w.agrees)
              (ground arith, tt);
        view = ids_of-append p.events _ ∙ ap (λ (l : List ℕ). l ++ id ∷ []) w.view;
        distinct = Distinct-snoc ids id w.distinct (subst (λ l. ¬ In id l) w.view out);
      },
    )
  where
    owns :
        (i m : ℕ)
        → ((i == id) ≡ true) ⊎ ((i == id) ≡ false)
        → put p.event_map id (some p.next_node) i ≡ some m
        → ((if m == p.next_node then id else w.owner m) ≡ i) × (m < p.next_node + 1)
    owns i m (inl b) g = ground arith
    owns i m (inr b) g = let (u, v) = w.owned i m (ground arith) in ground (arith, u, v)

removed :
    (id n : ℕ) (p : AsyncerPoller)
    → p.event_map id ≡ some n
    → (remove_event id p).event_map id ≡ none
unfolding remove_event
removed id n p e = ground (arith, e)

-- On an asyncer poller that watches the events ids, UpdateEvent ends within two calls, and the
-- poller then watches the same events with the one given at the end.
pub update_event-Watches :
    (id : ℕ) (p : AsyncerPoller) (ids : List ℕ)
    → Watches p ids
    → (p' : AsyncerPoller) × (update_event 2 id p ≡ some p')
      × Watches p' (without id ids ++ id ∷ [])
unfolding update_event
update_event-Watches id p ids w = elim (Option-cases (p.event_map id)) [
  | inl e ↦
      let out = subst (λ l. ¬ In id l) w.view (unwatched p.event_map id p.events e w.agrees) in
      rw (without-eq_of_not_In id ids out) (update_new 1 id p ids e w)
  | inr (n, e) ↦
      let (p', g, w') =
        update_new 0 id (remove_event id p) (without id ids) (removed id n p e)
          (remove_event-Watches id p ids w) in
      (p', rw (e, update_event) g, w')
]
