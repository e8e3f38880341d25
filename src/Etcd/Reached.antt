-- ===== src/Etcd/Reached.antt =====
-- The states that the runs of src/extends/small_watcher/etcd/etcd.cpp reach.
use sheep_cpp.Base.{
  ℕ, ◌≡◌, ◌↔◌, refl, subst, inl, inr, ◌⊎◌, Bool, false, Option, none, some, List, [], ◌∷◌, String,
  empty, Bool-cases, Option-cases, In, take_by, is_empty, arith,
}
use sheep_cpp.Etcd.{
  ListHandler, user_list, list_watch, NotifyHandler, user_notify, Task, creating, refreshing,
  listing, watching, Request, Etcd, make_etcd, list, watch_once, start_list_watch,
}
use sheep_cpp.Etcd.Replies.{
  Errors, Listed, Reply, read_errors, on_create, on_refresh, on_list, on_done,
}
use sheep_cpp.Etcd.Run.{
  Event, call_create, call_list_watch, call_list, call_watch_once, done, fired, contains, step, run,
}
use sheep_cpp.Etcd.Chains.{pending, begun, ephemerals_kept}
use sheep_cpp.Etcd.Owned.{request_ids, wait_ids, do_req-Owned, create-Owned}
use sheep_cpp.Etcd.Alive.{
  Sound, on_done-Owned, answer-Owned, fire-Owned, forget_answered, on_timer-Sound,
}

list-Sound : (path : String) (h : ListHandler) (s : Etcd) → Sound s → Sound (list path h s)
unfolding list
list-Sound path h s v = do_req-Owned _ _ _ _ s v

watch_once-Sound :
    (after : ℕ) (path : String) (h : NotifyHandler) (s : Etcd)
    → Sound s
    → Sound (watch_once after path h s)
unfolding watch_once
watch_once-Sound after path h s v = do_req-Owned _ _ _ _ s v

step-Sound :
    (stoll : String → Option ℕ) (ev : Event) (s t : Etcd)
    → Sound s
    → step stoll ev s ≡ some t
    → Sound t
unfolding step start_list_watch
step-Sound stoll (call_create path value) s t v q =
    subst Sound (ground (arith, q)) (create-Owned path value empty s v)
step-Sound stoll (call_list_watch path func) s t v q =
    subst Sound (ground (arith, q)) (list-Sound path (list_watch path func) s v)
step-Sound stoll (call_list path func) s t v q =
    subst Sound (ground (arith, q)) (list-Sound path (user_list func) s v)
step-Sound stoll (call_watch_once after path func) s t v q =
    subst Sound (ground (arith, q)) (watch_once-Sound after path (user_notify func) s v)
step-Sound stoll (done id reply stop) s t v q =
    elim (Option-cases (take_by (λ r. r.id) id s.requests)) [
      | inl f ↦ subst Sound (ground (arith, q, f)) v
      | inr ((r, rest), f) ↦
          let (o, c) = answer-Owned id s r rest v f in
          let s' : Etcd = record s { requests = rest } in
          let g : on_done stoll id r.task reply stop s' ≡ some t = ground (arith, q, f, c) in
          forget_answered t (on_done-Owned stoll id r.task reply stop s' t refl o g)
    ]
step-Sound stoll (fired id err) s t v q = elim (Option-cases (take_by (λ w. w.id) id s.waits)) [
  | inl f ↦ subst Sound (ground (arith, q, f)) v
  | inr ((w, rest), f) ↦
      let (o, c) = fire-Owned id s w rest v f in
      let s' : Etcd = record s { waits = rest } in
      subst Sound (ground (arith, q, f, c)) (on_timer-Sound id w.alarm err s' o)
]

run-Sound :
    (stoll : String → Option ℕ) (evs : List Event) (s t : Etcd)
    → Sound s
    → run stoll evs s ≡ some t
    → Sound t
unfolding run
run-Sound stoll [] s t v q = subst Sound (ground (arith, q)) v
run-Sound stoll (ev ∷ evs) s t v q = elim (Option-cases (step stoll ev s)) [
  | inl f ↦ absurd (ground (arith, q, f))
  | inr (s', f) ↦ run-Sound stoll evs s' t (step-Sound stoll ev s s' v f) (ground (arith, q, f))
]

make-Sound : Sound make_etcd
unfolding make_etcd
make-Sound = record {
  clients = λ x i. absurd i;
  held = λ x i. absurd i;
  timers_wait = λ x i. absurd i;
  once_requests = tt;
  once_waits = tt;
  below_requests = λ x i. absurd i;
  below_waits = λ x i. absurd i;
  answered = λ x o. absurd o;
  fired_before = λ x o. absurd o;
}

-- After any sequence of calls, replies and timers that does not crash: the HttpClient of every
-- request that is not answered is held in httpClients_, and timers_ holds exactly the timers that
-- are to fire.
pub callbacks_alive :
    (stoll : String → Option ℕ) (evs : List Event) (t : Etcd)
    → run stoll evs make_etcd ≡ some t
    → ((x : ℕ) → In x (request_ids t) → In x t.http_clients)
      × ((x : ℕ) → In x t.timers ↔ In x (wait_ids t))
callbacks_alive stoll evs t q =
    let v = run-Sound stoll evs make_etcd t make-Sound q in
    (v.clients, λ x. (λ i. elim (v.timers_wait x i) [ inl j ↦ j | inr b ↦ absurd b ], v.held x))

-- A reply that the onDone of this task can read: without an error, its body asks for no assertion,
-- and that of a List has the index of etcd.
abbrev pub CanRead : (String → Option ℕ) → Reply → Task → Type 0
CanRead stoll r (listing handler) = (l : Listed) × (on_list stoll r ≡ some l)
CanRead stoll r (watching handler) = Unit
CanRead stoll r task = (is_empty r.err ≡ false) ⊎ ((e : Errors) × (read_errors r.doc ≡ some e))

abbrev pub OfTask : (Task → Type 0) → Option (Request × List Request) → Type 0
OfTask P none = Unit
OfTask P (some (r, rest)) = P r.task

-- The reply to a request that is pending.
abbrev pub IsReadable : (String → Option ℕ) → Event → Etcd → Type 0
IsReadable stoll (done id reply stop) s =
    OfTask (CanRead stoll reply) (take_by (λ r. r.id) id s.requests)
IsReadable stoll _ s = Unit

abbrev pub InRest : (Etcd → Type 0) → Option Etcd → Type 0
InRest P none = Unit
InRest P (some t) = P t

abbrev pub AllReadable : (String → Option ℕ) → List Event → Etcd → Type 0
AllReadable stoll [] s = Unit
AllReadable stoll (ev ∷ evs) s =
    IsReadable stoll ev s × InRest (AllReadable stoll evs) (step stoll ev s)

on_done-total :
    (stoll : String → Option ℕ) (id : ℕ) (task : Task) (r : Reply) (stop : Bool) (s : Etcd)
    → CanRead stoll r task
    → (t : Etcd) × (on_done stoll id task r stop s ≡ some t)
unfolding on_done on_create on_refresh
on_done-total stoll id (creating path value) r stop s (inl e) = rw (on_done, e) (_, refl)
on_done-total stoll id (creating path value) r stop s (inr (d, f)) =
    elim (Bool-cases (is_empty r.err)) [
      | inl e ↦ rw (on_done, e, on_create, f) (_, refl)
      | inr e ↦ rw (on_done, e) (_, refl)
    ]
on_done-total stoll id (refreshing path value) r stop s (inl e) = rw (on_done, e) (_, refl)
on_done-total stoll id (refreshing path value) r stop s (inr (d, f)) =
    elim (Bool-cases (is_empty r.err)) [
      | inl e ↦ rw (on_done, e, on_refresh, f) (_, refl)
      | inr e ↦ rw (on_done, e) (_, refl)
    ]
on_done-total stoll id (listing handler) r stop s (l, e) = rw (on_done, e) (_, refl)
on_done-total stoll id (watching handler) r stop s h = (_, refl)

step-total :
    (stoll : String → Option ℕ) (ev : Event) (s : Etcd)
    → IsReadable stoll ev s
    → (t : Etcd) × (step stoll ev s ≡ some t)
unfolding step
step-total stoll (call_create path value) s h = (_, refl)
step-total stoll (call_list_watch path func) s h = (_, refl)
step-total stoll (call_list path func) s h = (_, refl)
step-total stoll (call_watch_once after path func) s h = (_, refl)
step-total stoll (done id reply stop) s h =
    elim (Option-cases (take_by (λ r. r.id) id s.requests)) [
      | inl f ↦ rw (step, f) (s, refl)
      | inr ((r, rest), f) ↦ elim (Bool-cases (contains id s.http_clients)) [
        | inl c ↦
            let can = subst (OfTask (CanRead stoll reply)) f h in
            rw (step, f, c) (on_done-total stoll id r.task reply stop _ can)
        | inr c ↦ rw (step, f, c) (s, refl)
      ]
    ]
step-total stoll (fired id err) s h = elim (Option-cases (take_by (λ w. w.id) id s.waits)) [
  | inl f ↦ rw (step, f) (s, refl)
  | inr ((w, rest), f) ↦ elim (Bool-cases (contains id s.timers)) [
    | inl c ↦ rw (step, f, c) (_, refl)
    | inr c ↦ rw (step, f, c) (s, refl)
  ]
]

run-total :
    (stoll : String → Option ℕ) (evs : List Event) (s : Etcd)
    → AllReadable stoll evs s
    → (t : Etcd) × (run stoll evs s ≡ some t)
unfolding run
run-total stoll [] s h = (s, refl)
run-total stoll (ev ∷ evs) s h =
    let (s', e) = step-total stoll ev s h.0 in
    let later = subst (InRest (AllReadable stoll evs)) e h.1 in
    let (t, f) = run-total stoll evs s' later in (t, rw (run, e) f)

-- Any sequence of calls, replies and timers in which the pending requests get replies that their
-- handlers can read (without an error, the tests of a reply to a creation or a refresh fail no
-- assertion of rapidjson, and neither does the reading of a reply to a List, which has a number
-- in the header X-Etcd-Index unless an error ends it before) comes to its end without a crash,
-- and then as many tasks of CreateEphemeral are pending as there were calls of it.
pub ephemerals_last :
    (stoll : String → Option ℕ) (evs : List Event)
    → AllReadable stoll evs make_etcd
    → (t : Etcd) × (run stoll evs make_etcd ≡ some t) × (pending 1 0 t ≡ begun 1 0 evs)
ephemerals_last stoll evs h =
    let (t, e) = run-total stoll evs make_etcd h in (t, e, ephemerals_kept stoll evs t e)
