-- ===== src/Net/ClientPool/Lent.antt =====
-- The pools of src/net/client/client_pool.cpp that are reached, and the clients that they give out.
use sheep_cpp.Base.{
  ℕ, ◌<◌, ◌≡◌, ◌≢◌, refl, sym, ◌∙◌, subst, inl, inr, false, some, List, [], ◌∷◌, if◌then◌else◌,
  ErrMsg, empty, is_empty, In, Distinct, length, Bool-cases, set_at, take_one, take_one-Takes,
  arith,
}
use sheep_cpp.Net.ClientPool.{
  up, down, ClientPool, finish_client, reset_client, insert_client, insert, on_connected, get, ◌⟶◌,
  connected, lost, taken, given_back, Reached, inited_pool, next,
}
use sheep_cpp.Net.ClientPool.Size.{Inv, init-Inv, finish-Inv, insert_client-Inv, up-Inv}

insert_of_up :
    (id : ℕ) (e : ErrMsg) (p : ClientPool)
    → p.link id ≡ up
    → insert id e p ≡ some (if is_empty e then insert_client id p else finish_client id e p)
unfolding insert reset_client
insert_of_up id e p u = elim (Bool-cases (is_empty e)) [
  | inl h ↦ rw (insert, reset_client, u, h) refl
  | inr h ↦ rw (insert, reset_client, u, h) refl
]

insert_of_down :
    (id : ℕ) (e : ErrMsg) (p : ClientPool)
    → p.link id ≡ down
    → is_empty e ≡ false
    → insert id e p ≡ some p
unfolding insert reset_client
insert_of_down id e p u h = rw (insert, reset_client, u, h) refl

-- What Get takes out.
Gets : ℕ → ClientPool → ClientPool → Type 0
Gets id p q =
    (ys : List ℕ) × (record p { clients = ys } ≡ q)
    × In id p.clients
    × Distinct ys
    × ((j : ℕ) → In j ys → In j p.clients × (j ≢ id))

get_of_taken :
    (k y : ℕ) (ys : List ℕ) (p : ClientPool)
    → take_one k p.clients ≡ some (y, ys)
    → get k p ≡ some (y, record p { clients = ys })
unfolding get
get_of_taken k y ys p f = rw (get, f) refl

get-Gets :
    (k id : ℕ) (p q : ClientPool) (xs : List ℕ)
    → p.clients ≡ xs
    → Distinct xs
    → get k p ≡ some (id, q)
    → Gets id p q
unfolding get Gets take_one
get-Gets k id p q [] e d g = absurd (ground (arith, e, g))
get-Gets k id p q (x ∷ xs) e d g =
    let (y, ys, f, (i, dy, h)) = take_one-Takes k x xs d in
    let f' = subst (λ l. take_one k l ≡ some (y, ys)) (sym e) f in
    let r : some (y, record p { clients = ys }) ≡ some (id, q) =
      sym (get_of_taken k y ys p f') ∙ g in
    let a : y ≡ id = ground (arith, r) in
    let b : record p { clients = ys } ≡ q = ground (arith, r) in
    (
      ys,
      b,
      subst (λ l. In id l) (sym e) (subst (λ z. In z (x ∷ xs)) a i),
      dy,
      λ j m. let (c, n) = (h j).0 m in (subst (λ l. In j l) (sym e) c, λ o. n (o ∙ sym a)),
    )

take-Inv :
    (n : ℕ) (p : ClientPool) (ys : List ℕ)
    → Inv n p
    → Distinct ys
    → ((j : ℕ) → In j ys → In j p.clients)
    → Inv n (record p { clients = ys })
take-Inv n p ys v d h = record {
  size = v.size;
  once = v.once;
  below = v.below;
  alive = v.alive;
  known = v.known;
  idle_up = λ j i. v.idle_up j (h j i);
  idle_once = d;
  not_revived = v.not_revived;
}

insert_up-Inv :
    (n : ℕ) (id : ℕ) (e : ErrMsg) (p : ClientPool)
    → Inv n p
    → id < p.next_id
    → p.link id ≡ up
    → Inv n (if is_empty e then insert_client id p else finish_client id e p)
insert_up-Inv n id e p v b u = elim (Bool-cases (is_empty e)) [
  | inl h ↦ rw h (insert_client-Inv n p id v u b)
  | inr h ↦ rw h (finish-Inv n p id e v b (inr u) h)
]

step-Inv : (n : ℕ) (p q : ClientPool) → p ⟶ q → Inv n p → Inv n q
unfolding on_connected Gets
step-Inv n p q (connected id b c e) v =
    let p' : ClientPool = record p { link = set_at id up p.link } in
    let v' = up-Inv n p id v c b in
    let u : p'.link id ≡ up = ground arith in
    let r : some (insert_client id p') ≡ some q = sym (insert_of_up id empty p' u) ∙ e in
    subst (Inv n) (ground (arith, r)) (insert_client-Inv n p' id v' u b)
step-Inv n p q (lost id e b l h r) v = subst (Inv n) r (finish-Inv n p id e v b l h)
step-Inv n p q (taken k id g) v =
    let (ys, e, i, d, h) = get-Gets k id p q p.clients refl v.idle_once g in
    subst (Inv n) e (take-Inv n p ys v d (λ j m. (h j m).0))
step-Inv n p q (given_back id e b (inl u) g) v =
    let r = sym (insert_of_up id e p u) ∙ g in
    subst (Inv n) (ground (arith, r)) (insert_up-Inv n id e p v b u)
step-Inv n p q (given_back id e b (inr (u, h)) g) v =
    let r = sym (insert_of_down id e p u h) ∙ g in subst (Inv n) (ground (arith, r)) v

pub Reached-Inv : (n : ℕ) (p : ClientPool) → Reached n p → Inv n p
Reached-Inv n p inited_pool = init-Inv n
Reached-Inv n p (next {p = q} r s) = step-Inv n q p s (Reached-Inv n q r)

-- In every state that a pool for n clients reaches from Init, where clients connect or are lost
-- with an error, users take clients, and users give back clients whose connection is in use, or
-- those that are lost with an error: the pool has exactly n clients, connected or on their way.
pub pool_size : (n : ℕ) (p : ClientPool) → Reached n p → length p.all_clients ≡ n
pool_size n p r = (Reached-Inv n p r).size

-- In every such state, a client that Get gives out has a connection in use, is one of the clients
-- of the pool, and is not left to be given out a second time.
pub get_up :
    (n k id : ℕ) (p q : ClientPool)
    → Reached n p
    → get k p ≡ some (id, q)
    → (p.link id ≡ up) × In id p.all_clients × (¬ In id q.clients)
unfolding Gets
get_up n k id p q r g =
    let v = Reached-Inv n p r in
    let (ys, e, i, d, h) = get-Gets k id p q p.clients refl v.idle_once g in
    let (u, b) = v.idle_up id i in
    (
      u,
      v.known id b (inr u),
      λ m. (h id (subst (λ (z : ClientPool). In id z.clients) (sym e) m)).1 refl,
    )
