-- ===== src/Etcd/Owned.antt =====
-- Which objects src/extends/small_watcher/etcd/etcd.cpp holds for the callbacks that are to come.
use sheep_cpp.Base.{
  ℕ, ◌<◌, ◌⊎◌, subst, inl, inr, List, String, ErrMsg, is_empty, Bool-cases, Option-cases, In,
  Distinct, map, In-without, arith,
}
use sheep_cpp.Etcd.{
  Task, Alarm, create_later, refresh_later, watch_later, Etcd, do_req, async_wait, erase_client,
  next_create_ephemeral, next_refresh, create_ephemeral, refresh, watch_once, watch,
}
use sheep_cpp.Etcd.Replies.{Errors, created, refreshed, ring}

abbrev pub request_ids : Etcd → List ℕ
request_ids s = map (λ r. r.id) s.requests

abbrev pub wait_ids : Etcd → List ℕ
wait_ids s = map (λ w. w.id) s.waits

-- The clients of `out` have answered, the timers of `over` have fired, and both are yet to be
-- erased.
pub record Owned (out over : ℕ → Type 0) (s : Etcd) : Type 0 where
  pub clients : (x : ℕ) → In x (request_ids s) → In x s.http_clients
  pub held : (x : ℕ) → In x (wait_ids s) → In x s.timers
  pub timers_wait : (x : ℕ) → In x s.timers → In x (wait_ids s) ⊎ over x
  pub once_requests : Distinct (request_ids s)
  pub once_waits : Distinct (wait_ids s)
  pub below_requests : (x : ℕ) → In x (request_ids s) → x < s.next_id
  pub below_waits : (x : ℕ) → In x (wait_ids s) → x < s.next_id
  pub answered : (x : ℕ) → out x → (x < s.next_id) × (¬ In x (request_ids s))
  pub fired_before : (x : ℕ) → over x → (x < s.next_id) × (¬ In x (wait_ids s))

module _ {out over : ℕ → Type 0} where
  pub do_req-Owned :
      (method target body : String) (task : Task) (s : Etcd)
      → Owned out over s
      → Owned out over (do_req method target body task s)
  unfolding do_req
  do_req-Owned method target body task s v = record {
    clients = λ x i. elim i [ inl e ↦ inl e | inr j ↦ inr (v.clients x j) ];
    held = v.held;
    timers_wait = v.timers_wait;
    once_requests = (λ i. let b = v.below_requests s.next_id i in omega arith, v.once_requests);
    once_waits = v.once_waits;
    below_requests =
        λ x i. elim i [ inl e ↦ omega arith | inr j ↦ let b = v.below_requests x j in omega arith ];
    below_waits = λ x i. let b = v.below_waits x i in omega arith;
    answered = λ x o.
        let (b, n) = v.answered x o in
        (omega arith, λ i. elim i [ inl e ↦ omega arith | inr j ↦ n j ]);
    fired_before = λ x o. let (b, n) = v.fired_before x o in (omega arith, n);
  }

  pub async_wait-Owned :
      (ms : ℕ) (alarm : Alarm) (s : Etcd)
      → Owned out over s
      → Owned out over (async_wait ms alarm s)
  unfolding async_wait
  async_wait-Owned ms alarm s v = record {
    clients = v.clients;
    held = λ x i. elim i [ inl e ↦ inl e | inr j ↦ inr (v.held x j) ];
    timers_wait = λ x i. elim i [
      | inl e ↦ inl (inl e)
      | inr j ↦ elim (v.timers_wait x j) [ inl k ↦ inl (inr k) | inr k ↦ inr k ]
    ];
    once_requests = v.once_requests;
    once_waits = (λ i. let b = v.below_waits s.next_id i in omega arith, v.once_waits);
    below_requests = λ x i. let b = v.below_requests x i in omega arith;
    below_waits =
        λ x i. elim i [ inl e ↦ omega arith | inr j ↦ let b = v.below_waits x j in omega arith ];
    answered = λ x o. let (b, n) = v.answered x o in (omega arith, n);
    fired_before = λ x o.
        let (b, n) = v.fired_before x o in
        (omega arith, λ i. elim i [ inl e ↦ omega arith | inr j ↦ n j ]);
  }

  pub erase-Owned :
      (id : ℕ) (s : Etcd) → out id → Owned out over s → Owned out over (erase_client id s)
  unfolding erase_client
  erase-Owned id s o v = record {
    clients = λ x i.
        (In-without x id s.http_clients).1
          (v.clients x i, λ e. (v.answered id o).1 (subst (λ y. In y (request_ids s)) e i));
    held = v.held;
    timers_wait = v.timers_wait;
    once_requests = v.once_requests;
    once_waits = v.once_waits;
    below_requests = v.below_requests;
    below_waits = v.below_waits;
    answered = v.answered;
    fired_before = v.fired_before;
  }

  pub create-Owned :
      (path value : String) (err : ErrMsg) (s : Etcd)
      → Owned out over s
      → Owned out over (create_ephemeral path value err s)
  unfolding create_ephemeral next_create_ephemeral
  create-Owned path value err s v = elim (Bool-cases (is_empty err)) [
    | inl e ↦ rw e (do_req-Owned _ _ _ _ s v)
    | inr e ↦ rw e (async_wait-Owned _ _ s v)
  ]

  refresh-Owned :
      (path value : String) (err : ErrMsg) (s : Etcd)
      → Owned out over s
      → Owned out over (refresh path value err s)
  unfolding refresh next_create_ephemeral
  refresh-Owned path value err s v = elim (Bool-cases (is_empty err)) [
    | inl e ↦ rw e (do_req-Owned _ _ _ _ s v)
    | inr e ↦ rw e (async_wait-Owned _ _ s v)
  ]

  pub ring-Owned :
      (alarm : Alarm) (err : ErrMsg) (s : Etcd)
      → Owned out over s
      → Owned out over (ring alarm err s)
  unfolding ring watch watch_once
  ring-Owned (create_later path value) err s v = create-Owned path value err s v
  ring-Owned (refresh_later path value) err s v = refresh-Owned path value err s v
  ring-Owned (watch_later after path func) err s v = do_req-Owned _ _ _ _ s v

  next_refresh-Owned :
      (path value : String) (s : Etcd)
      → Owned out over s
      → Owned out over (next_refresh path value s)
  unfolding next_refresh
  next_refresh-Owned path value s v = async_wait-Owned _ _ s v

  pub next_create-Owned :
      (path value : String) (s : Etcd)
      → Owned out over s
      → Owned out over (next_create_ephemeral path value s)
  unfolding next_create_ephemeral
  next_create-Owned path value s v = async_wait-Owned _ _ s v

  pub created-Owned :
      (id : ℕ) (path value : String) (doc : Errors) (s : Etcd)
      → out id
      → Owned out over s
      → Owned out over (created id path value doc s)
  unfolding created
  created-Owned id path value doc s o v =
      let r = next_refresh-Owned path value s v in
      let c = next_create-Owned path value s v in
      elim (Option-cases doc.parse_error) [
        | inr (_, e) ↦ rw e (erase-Owned id _ o r)
        | inl e ↦ elim (Option-cases doc.code) [
          | inl f ↦ rw (e, f) r
          | inr (_, f) ↦ elim (Option-cases doc.message) [
            | inl g ↦ rw (e, f, g) (erase-Owned id _ o c)
            | inr (_, g) ↦ rw (e, f, g) c
          ]
        ]
      ]

  pub refreshed-Owned :
      (id : ℕ) (path value : String) (doc : Errors) (s : Etcd)
      → out id
      → Owned out over s
      → Owned out over (refreshed id path value doc s)
  unfolding refreshed
  refreshed-Owned id path value doc s o v =
      let r = next_refresh-Owned path value s v in
      let c = next_create-Owned path value s v in
      elim (Option-cases doc.parse_error) [
        | inr (_, e) ↦ rw e (erase-Owned id _ o r)
        | inl e ↦ elim (Option-cases doc.code) [
          | inl f ↦ rw (e, f) (erase-Owned id _ o r)
          | inr (_, f) ↦ rw (e, f) (erase-Owned id _ o c)
        ]
      ]
