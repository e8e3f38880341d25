-- ===== src/Etcd/Alive.antt =====
-- Whether a callback of src/extends/small_watcher/etcd/etcd.cpp finds the object that is to call it.
use sheep_cpp.Base.{
  ℕ, ◌<◌, ◌≡◌, refl, sym, subst, inl, inr, Bool, true, Option, some, List, [], ◌∷◌, String, ErrMsg,
  is_empty, Bool-cases, Option-cases, In, without, take_by, take_by-Takes, same_or_not, In-without,
  arith,
}
use sheep_cpp.Etcd.{
  ListHandler, user_list, list_watch, NotifyHandler, user_notify, watch_again, Task, creating,
  refreshing, listing, watching, Request, Alarm, Call, Wait, Etcd, list, watch_once, watch,
  start_list_watch,
}
use sheep_cpp.Etcd.Replies.{
  Listed, is_no_error, Reply, on_failed, read_errors, on_create, on_refresh, on_list, run_list,
  run_notify, on_done, ring, on_timer,
}
use sheep_cpp.Etcd.Run.{contains}
use sheep_cpp.Etcd.Owned.{
  wait_ids, Owned, do_req-Owned, async_wait-Owned, erase-Owned, ring-Owned, next_create-Owned,
  created-Owned, refreshed-Owned,
}

module _ {out over : ℕ → Type 0} where
  log-Owned :
      (c : List Call) (s : Etcd) → Owned out over s → Owned out over (record s { calls = c })
  log-Owned c s v = record {
    clients = v.clients;
    held = v.held;
    timers_wait = v.timers_wait;
    once_requests = v.once_requests;
    once_waits = v.once_waits;
    below_requests = v.below_requests;
    below_waits = v.below_waits;
    answered = v.answered;
    fired_before = v.fired_before;
  }

  watch-Owned :
      (after : ℕ) (path : String) (func : ℕ) (s : Etcd)
      → Owned out over s
      → Owned out over (watch after path func s)
  unfolding watch watch_once
  watch-Owned after path func s v = do_req-Owned _ _ _ _ s v

  run_list-Owned :
      (h : ListHandler) (stop : Bool) (r : Listed) (s : Etcd)
      → Owned out over s
      → Owned out over (run_list h stop r s)
  unfolding run_list
  run_list-Owned (user_list func) stop r s v = log-Owned _ s v
  run_list-Owned (list_watch path func) stop r s v = elim (Bool-cases (is_no_error r.err)) [
    | inl e ↦ elim (Bool-cases stop) [
      | inl f ↦ rw (e, f) (log-Owned _ s v)
      | inr f ↦ rw (e, f) (watch-Owned r.after_index path func _ (log-Owned _ s v))
    ]
    | inr e ↦ rw e (watch-Owned r.after_index path func s v)
  ]

  run_notify-Owned :
      (h : NotifyHandler) (err : ErrMsg) (s : Etcd)
      → Owned out over s
      → Owned out over (run_notify h err s)
  unfolding run_notify start_list_watch list
  run_notify-Owned (user_notify func) err s v = log-Owned _ s v
  run_notify-Owned (watch_again after path func) err s v = elim (Bool-cases (is_empty err)) [
    | inl e ↦ rw e (do_req-Owned _ _ _ _ s v)
    | inr e ↦ rw e (async_wait-Owned _ _ s v)
  ]

  on_failed-Owned :
      (id : ℕ) (path : String) (s : Etcd)
      → out id
      → Owned out over s
      → Owned out over (on_failed id path s)
  unfolding on_failed
  on_failed-Owned id path s o v = erase-Owned id _ o (next_create-Owned path path s v)

  pub on_done-Owned :
      (stoll : String → Option ℕ) (id : ℕ) (task : Task) (r : Reply) (stop : Bool) (s t : Etcd)
      → out id
      → Owned out over s
      → on_done stoll id task r stop s ≡ some t
      → Owned out over t
  unfolding on_done on_create on_refresh
  on_done-Owned stoll id (creating path value) r stop s t o v q =
      elim (Bool-cases (is_empty r.err)) [
        | inl e ↦ elim (Option-cases (read_errors r.doc)) [
          | inl f ↦ absurd (ground (arith, q, e, f))
          | inr (d, f) ↦
              subst (Owned out over) (ground (arith, q, e, f)) (created-Owned id path value d s o v)
        ]
        | inr e ↦ subst (Owned out over) (ground (arith, q, e)) (on_failed-Owned id path s o v)
      ]
  on_done-Owned stoll id (refreshing path value) r stop s t o v q =
      elim (Bool-cases (is_empty r.err)) [
        | inl e ↦ elim (Option-cases (read_errors r.doc)) [
          | inl f ↦ absurd (ground (arith, q, e, f))
          | inr (d, f) ↦
              subst (Owned out over) (ground (arith, q, e, f))
                (refreshed-Owned id path value d s o v)
        ]
        | inr e ↦ subst (Owned out over) (ground (arith, q, e)) (on_failed-Owned id path s o v)
      ]
  on_done-Owned stoll id (listing h) r stop s t o v q = elim (Option-cases (on_list stoll r)) [
    | inl e ↦ absurd (ground (arith, q, e))
    | inr (l, e) ↦
        subst (Owned out over) (ground (arith, q, e))
          (erase-Owned id _ o (run_list-Owned h stop l s v))
  ]
  on_done-Owned stoll id (watching h) r stop s t o v q =
      subst (Owned out over) (ground (arith, q)) (erase-Owned id _ o (run_notify-Owned h r.err s v))

contains-In : (x : ℕ) (xs : List ℕ) → In x xs → contains x xs ≡ true
contains-In x [] i = absurd i
contains-In x (y ∷ ys) (inl e) = ground arith
contains-In x (y ∷ ys) (inr i) = let ih = contains-In x ys i in ground (arith, ih)

-- Nothing is to be erased.
abbrev pub Sound : Etcd → Type 0
Sound s = Owned (λ x. ⊥) (λ x. ⊥) s

-- The answer to a request is there.
pub answer-Owned :
    (id : ℕ) (s : Etcd) (r : Request) (rest : List Request)
    → Sound s
    → take_by (λ r. r.id) id s.requests ≡ some (r, rest)
    → Owned (λ x. x ≡ id) (λ x. ⊥) (record s { requests = rest })
      × (contains id s.http_clients ≡ true)
answer-Owned id s r rest v q =
    let (i, d, h) = take_by-Takes (λ r. r.id) id s.requests r rest v.once_requests q in
    (
      record {
        clients = λ x j. v.clients x ((h x).0 j).0;
        held = v.held;
        timers_wait = λ x j. elim (v.timers_wait x j) [ inl k ↦ inl k | inr k ↦ absurd k ];
        once_requests = d;
        once_waits = v.once_waits;
        below_requests = λ x j. v.below_requests x ((h x).0 j).0;
        below_waits = v.below_waits;
        answered = λ x e.
            (subst (λ y. y < s.next_id) (sym e) (v.below_requests id i), λ j. ((h x).0 j).1 e);
        fired_before = λ x b. absurd b;
      },
      contains-In id s.http_clients (v.clients id i),
    )

-- The timer has fired.
pub fire-Owned :
    (id : ℕ) (s : Etcd) (w : Wait) (rest : List Wait)
    → Sound s
    → take_by (λ w. w.id) id s.waits ≡ some (w, rest)
    → Owned (λ x. ⊥) (λ x. x ≡ id) (record s { waits = rest }) × (contains id s.timers ≡ true)
fire-Owned id s w rest v q =
    let (i, d, h) = take_by-Takes (λ w. w.id) id s.waits w rest v.once_waits q in
    (
      record {
        clients = v.clients;
        held = λ x j. v.held x ((h x).0 j).0;
        timers_wait = λ x j. elim (v.timers_wait x j) [
          | inl k ↦ elim (same_or_not x id) [ inl e ↦ inr e | inr n ↦ inl ((h x).1 (k, n)) ]
          | inr k ↦ absurd k
        ];
        once_requests = v.once_requests;
        once_waits = d;
        below_requests = v.below_requests;
        below_waits = λ x j. v.below_waits x ((h x).0 j).0;
        answered = λ x b. absurd b;
        fired_before =
            λ x e. (subst (λ y. y < s.next_id) (sym e) (v.below_waits id i), λ j. ((h x).0 j).1 e);
      },
      contains-In id s.timers (v.held id i),
    )

pub forget_answered : {out : ℕ → Type 0} (s : Etcd) → Owned out (λ x. ⊥) s → Sound s
forget_answered s v = record {
  clients = v.clients;
  held = v.held;
  timers_wait = v.timers_wait;
  once_requests = v.once_requests;
  once_waits = v.once_waits;
  below_requests = v.below_requests;
  below_waits = v.below_waits;
  answered = λ x b. absurd b;
  fired_before = v.fired_before;
}

erase_timer-Owned :
    (id : ℕ) (s : Etcd)
    → Owned (λ x. ⊥) (λ x. x ≡ id) s
    → (¬ In id (wait_ids s))
    → Sound (record s { timers = without id s.timers })
erase_timer-Owned id s v n = record {
  clients = v.clients;
  held =
      λ x i. (In-without x id s.timers).1 (v.held x i, λ e. n (subst (λ y. In y (wait_ids s)) e i));
  timers_wait = λ x i.
      let (j, m) = (In-without x id s.timers).0 i in
      elim (v.timers_wait x j) [ inl k ↦ inl k | inr e ↦ absurd (m e) ];
  once_requests = v.once_requests;
  once_waits = v.once_waits;
  below_requests = v.below_requests;
  below_waits = v.below_waits;
  answered = v.answered;
  fired_before = λ x b. absurd b;
}

pub on_timer-Sound :
    (id : ℕ) (alarm : Alarm) (err : ErrMsg) (s : Etcd)
    → Owned (λ x. ⊥) (λ x. x ≡ id) s
    → Sound (on_timer id alarm err s)
unfolding on_timer
on_timer-Sound id alarm err s v =
    let w = ring-Owned alarm err s v in
    erase_timer-Owned id (ring alarm err s) w (w.fired_before id refl).1
