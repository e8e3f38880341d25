-- ===== src/Net/ClientPool/Size.antt =====
-- How many clients the pool of src/net/client/client_pool.cpp has, and which of them it gives out.
use sheep_cpp.Base.{
  ℕ, zero, suc, ◌+◌, ◌<◌, ◌≡◌, ◌≢◌, ◌⊎◌, refl, sym, ap, subst, inl, inr, true, false, List, [], ◌∷◌,
  ◌==◌, ErrMsg, is_empty, In, Distinct, length, same_or_not, set_at, without, In-without,
  Distinct-without, length-without_of_In, arith,
}
use sheep_cpp.Net.ClientPool.{
  connecting, up, down, revived, ClientPool, make_pool, init_client, init_clients, init,
  on_disconnected, finish_client, insert_client,
}

pub record Inv (n : ℕ) (p : ClientPool) : Type 0 where
  pub size : length p.all_clients ≡ n
  pub once : Distinct p.all_clients
  pub below : (id : ℕ) → In id p.all_clients → id < p.next_id
  pub alive : (id : ℕ) → In id p.all_clients → (p.link id ≡ connecting) ⊎ (p.link id ≡ up)
  pub known :
      (id : ℕ) → id < p.next_id → (p.link id ≡ connecting) ⊎ (p.link id ≡ up) → In id p.all_clients
  pub idle_up : (id : ℕ) → In id p.clients → (p.link id ≡ up) × (id < p.next_id)
  pub idle_once : Distinct p.clients
  pub not_revived : (id : ℕ) → p.link id ≢ revived

-- One more client.
init_client-Inv : (n : ℕ) (p : ClientPool) → Inv n p → Inv (suc n) (init_client p)
unfolding init_client
init_client-Inv n p v = record {
  size = ap suc v.size;
  once = (λ i. let b = v.below p.next_id i in omega arith, v.once);
  below = λ id i. elim i [ inl e ↦ omega arith | inr j ↦ let b = v.below id j in omega arith ];
  alive = λ id i. elim (same_or_not id p.next_id) [
    | inl e ↦ inl (ground arith)
    | inr m ↦ elim i [
      | inl e ↦ absurd (m e)
      | inr j ↦ elim (v.alive id j) [ inl a ↦ inl (ground arith) | inr a ↦ inr (ground arith) ]
    ]
  ];
  known = λ id b l. elim (same_or_not id p.next_id) [
    | inl e ↦ inl e
    | inr m ↦ inr (
        v.known id (omega arith)
          (elim l [ inl a ↦ inl (ground arith) | inr a ↦ inr (ground arith) ]))
  ];
  idle_up = λ id i. let (a, b) = v.idle_up id i in (ground arith, omega arith);
  idle_once = v.idle_once;
  not_revived = λ id e. let r = v.not_revived id in ground (arith, r);
}

init_clients-Inv : (m n : ℕ) (p : ClientPool) → Inv n p → Inv (m + n) (init_clients m p)
unfolding init_clients
init_clients-Inv zero n p v = subst (λ k. Inv k p) (omega arith) v
init_clients-Inv (suc m) n p v =
    subst (λ k. Inv k (init_clients m (init_client p))) (omega arith)
      (init_clients-Inv m (suc n) (init_client p) (init_client-Inv n p v))

pub init-Inv : (n : ℕ) → Inv n (init (make_pool n)).0
unfolding init make_pool
init-Inv n =
    subst (λ k. Inv k (init_clients n (record (make_pool n) { inited = true }))) (omega arith)
      (init_clients-Inv n 0 (record (make_pool n) { inited = true })
        (record {
          size = refl;
          once = tt;
          below = λ id i. absurd i;
          alive = λ id i. absurd i;
          known = λ id b l. absurd (omega arith);
          idle_up = λ id i. absurd i;
          idle_once = tt;
          not_revived = λ id e. ground arith;
        }))

-- A client is lost.
drop : ℕ → ClientPool → ClientPool
drop id p = record p {
  clients = without id p.clients;
  all_clients = without id p.all_clients;
  link = set_at id down p.link;
}

drop-Inv :
    (n : ℕ) (p : ClientPool) (id : ℕ) → Inv (suc n) p → In id p.all_clients → Inv n (drop id p)
unfolding drop
drop-Inv n p id v i = record {
  size = let len = length-without_of_In id p.all_clients v.once i in let s = v.size in omega arith;
  once = Distinct-without id p.all_clients v.once;
  below = λ j k. v.below j ((In-without j id p.all_clients).0 k).0;
  alive = λ j k.
      let (a, m) = (In-without j id p.all_clients).0 k in
      elim (v.alive j a) [ inl b ↦ inl (ground arith) | inr b ↦ inr (ground arith) ];
  known = λ j b l. elim (same_or_not j id) [
    | inl e ↦ absurd (elim l [ inl a ↦ ground arith | inr a ↦ ground arith ])
    | inr m ↦
        (In-without j id p.all_clients).1
          (v.known j b (elim l [ inl a ↦ inl (ground arith) | inr a ↦ inr (ground arith) ]), m)
  ];
  idle_up = λ j k.
      let (a, m) = (In-without j id p.clients).0 k in
      let (u, b) = v.idle_up j a in (ground arith, b);
  idle_once = Distinct-without id p.clients v.idle_once;
  not_revived = λ j e. let r = v.not_revived j in ground (arith, r);
}

finish_client-drop :
    (id : ℕ) (e : ErrMsg) (p : ClientPool)
    → id < p.next_id
    → is_empty e ≡ false
    → finish_client id e p ≡ init_client (drop id p)
unfolding finish_client on_disconnected init_client drop
finish_client-drop id e p b h = rw h (let m : p.next_id == id ≡ false = ground arith in rw m refl)

-- A client that is lost is replaced.
pub finish-Inv :
    (n : ℕ) (p : ClientPool) (id : ℕ) (e : ErrMsg)
    → Inv n p
    → id < p.next_id
    → (p.link id ≡ connecting) ⊎ (p.link id ≡ up)
    → is_empty e ≡ false
    → Inv n (finish_client id e p)
finish-Inv zero p id e v b l h = absurd (none_of p.all_clients v.size (v.known id b l))
  where
    none_of : (xs : List ℕ) → length xs ≡ zero → ¬ In id xs
    none_of [] q i = i
    none_of (x ∷ xs) q i = ground arith
finish-Inv (suc n) p id e v b l h =
    subst (Inv (suc n)) (sym (finish_client-drop id e p b h))
      (init_client-Inv n (drop id p) (drop-Inv n p id v (v.known id b l)))

-- A client with a connection goes into the pool.
pub insert_client-Inv :
    (n : ℕ) (p : ClientPool) (id : ℕ)
    → Inv n p
    → p.link id ≡ up
    → id < p.next_id
    → Inv n (insert_client id p)
unfolding insert_client
insert_client-Inv n p id v u b = record {
  size = v.size;
  once = v.once;
  below = v.below;
  alive = v.alive;
  known = v.known;
  idle_up = λ j i. elim i [
    | inl e ↦ (ground arith, ground arith)
    | inr k ↦ v.idle_up j ((In-without j id p.clients).0 k).0
  ];
  idle_once =
      (λ i. ((In-without id id p.clients).0 i).1 refl, Distinct-without id p.clients v.idle_once);
  not_revived = v.not_revived;
}

pub up-Inv :
    (n : ℕ) (p : ClientPool) (id : ℕ)
    → Inv n p
    → p.link id ≡ connecting
    → id < p.next_id
    → Inv n (record p { link = set_at id up p.link })
up-Inv n p id v c b = record {
  size = v.size;
  once = v.once;
  below = v.below;
  alive = λ j i. elim (same_or_not j id) [
    | inl e ↦ inr (ground arith)
    | inr m ↦ elim (v.alive j i) [ inl a ↦ inl (ground arith) | inr a ↦ inr (ground arith) ]
  ];
  known = λ j d l. elim (same_or_not j id) [
    | inl e ↦ subst (λ k. In k p.all_clients) (sym e) (v.known id b (inl c))
    | inr m ↦ v.known j d (elim l [ inl a ↦ inl (ground arith) | inr a ↦ inr (ground arith) ])
  ];
  idle_up = λ j i. let (u, d) = v.idle_up j i in (ground arith, d);
  idle_once = v.idle_once;
  not_revived = λ j e. let r = v.not_revived j in ground (arith, r);
}
