-- ===== src/Etcd/Chains.antt =====
-- How many tasks of CreateEphemeral and ListWatch of src/extends/small_watcher/etcd/etcd.cpp are pending.
use sheep_cpp.Base.{
  ℕ, ◌+◌, ◌≡◌, ◌⊎◌, refl, inl, inr, Bool, false, Option, some, List, [], ◌∷◌, String, ErrMsg,
  Bool-cases, All, Option-cases, take_by, arith,
}
use sheep_cpp.Etcd.{
  ListHandler, user_list, list_watch, NotifyHandler, user_notify, watch_again, Task, creating,
  refreshing, listing, watching, Request, Alarm, create_later, refresh_later, watch_later, Wait,
  Etcd, make_etcd, erase_client, create_ephemeral, list, watch_once, start_list_watch,
}
use sheep_cpp.Etcd.Replies.{
  Errors, Listed, Reply, read_errors, created, refreshed, on_create, on_refresh, on_failed, on_list,
  run_list, run_notify, on_done, ring, on_timer,
}
use sheep_cpp.Etcd.Run.{
  Event, call_create, call_list_watch, call_list, call_watch_once, done, fired, contains, step, run,
}

abbrev pub stops : Event → Bool
stops (done id reply stop) = stop
stops _ = false

-- No user's function stops its ListWatch.
abbrev pub NeverStops : List Event → Type 0
NeverStops evs = All (λ ev. stops ev ≡ false) evs

-- A task of CreateEphemeral weighs `e`, one of ListWatch `l`.
module _ (e l : ℕ) where
  abbrev pub task_weight : Task → ℕ
  task_weight (creating path value) = e
  task_weight (refreshing path value) = e
  task_weight (listing (user_list func)) = 0
  task_weight (listing (list_watch path func)) = l
  task_weight (watching (user_notify func)) = 0
  task_weight (watching (watch_again after path func)) = l

  abbrev pub alarm_weight : Alarm → ℕ
  alarm_weight (create_later path value) = e
  alarm_weight (refresh_later path value) = e
  alarm_weight (watch_later after path func) = l

  abbrev pub requests_weight : List Request → ℕ
  requests_weight [] = 0
  requests_weight (r ∷ rs) = task_weight r.task + requests_weight rs

  abbrev pub waits_weight : List Wait → ℕ
  waits_weight [] = 0
  waits_weight (w ∷ ws) = alarm_weight w.alarm + waits_weight ws

  -- What is pending of both.
  abbrev pub pending : Etcd → ℕ
  pending s = requests_weight s.requests + waits_weight s.waits

  pending-create :
      (path value : String) (err : ErrMsg) (s : Etcd)
      → pending (create_ephemeral path value err s) ≡ e + pending s
  unfolding create_ephemeral
  pending-create path value err s = ground arith

  pending-created :
      (id : ℕ) (path value : String) (doc : Errors) (s : Etcd)
      → pending (created id path value doc s) ≡ e + pending s
  unfolding created
  pending-created id path value doc s = ground arith

  pending-refreshed :
      (id : ℕ) (path value : String) (doc : Errors) (s : Etcd)
      → pending (refreshed id path value doc s) ≡ e + pending s
  unfolding refreshed
  pending-refreshed id path value doc s = ground arith

  pending-on_failed :
      (id : ℕ) (path : String) (s : Etcd) → pending (on_failed id path s) ≡ e + pending s
  unfolding on_failed
  pending-on_failed id path s = ground arith

  pending-run_list :
      (h : ListHandler) (stop : Bool) (r : Listed) (s : Etcd)
      → (stop ≡ false) ⊎ (l ≡ 0)
      → pending (run_list h stop r s) ≡ task_weight (listing h) + pending s
  unfolding run_list
  pending-run_list (user_list func) stop r s n = ground arith
  pending-run_list (list_watch path func) stop r s n = ground arith

  pending-run_notify :
      (h : NotifyHandler) (err : ErrMsg) (s : Etcd)
      → pending (run_notify h err s) ≡ task_weight (watching h) + pending s
  unfolding run_notify
  pending-run_notify (user_notify func) err s = ground arith
  pending-run_notify (watch_again after path func) err s = ground arith

  pending-ring :
      (alarm : Alarm) (err : ErrMsg) (s : Etcd)
      → pending (ring alarm err s) ≡ alarm_weight alarm + pending s
  unfolding ring
  pending-ring (create_later path value) err s = pending-create path value err s
  pending-ring (refresh_later path value) err s = ground arith
  pending-ring (watch_later after path func) err s = ground arith

  -- The task that a reply answers is replaced by one as heavy, unless a user stops the ListWatch.
  pending-on_done :
      (stoll : String → Option ℕ) (id : ℕ) (task : Task) (r : Reply) (stop : Bool) (s t : Etcd)
      → (stop ≡ false) ⊎ (l ≡ 0)
      → on_done stoll id task r stop s ≡ some t
      → pending t ≡ task_weight task + pending s
  unfolding on_done on_create on_refresh erase_client
  pending-on_done stoll id (creating path value) r stop s t n q =
      let failed = pending-on_failed id path s in
      elim (Option-cases (read_errors r.doc)) [
        | inl f ↦ ground (arith, q, f, failed)
        | inr (d, f) ↦ let k = pending-created id path value d s in ground (arith, q, f, failed, k)
      ]
  pending-on_done stoll id (refreshing path value) r stop s t n q =
      let failed = pending-on_failed id path s in
      elim (Option-cases (read_errors r.doc)) [
        | inl f ↦ ground (arith, q, f, failed)
        | inr (d, f) ↦
            let k = pending-refreshed id path value d s in ground (arith, q, f, failed, k)
      ]
  pending-on_done stoll id (listing h) r stop s t n q = elim (Option-cases (on_list stoll r)) [
    | inl f ↦ ground (arith, q, f)
    | inr (x, f) ↦ let k = pending-run_list h stop x s n in ground (arith, q, f, k)
  ]
  pending-on_done stoll id (watching h) r stop s t n q =
      ground (arith, q, pending-run_notify h r.err s)

  weight-take_request :
      (id : ℕ) (rs : List Request) (r : Request) (rest : List Request)
      → take_by (λ r. r.id) id rs ≡ some (r, rest)
      → requests_weight rs ≡ task_weight r.task + requests_weight rest
  unfolding take_by
  weight-take_request id [] r rest q = ground arith
  weight-take_request id (x ∷ xs) r rest q = elim (Option-cases (take_by (λ r. r.id) id xs)) [
    | inl f ↦ ground (arith, q, f)
    | inr ((y, ys), f) ↦ let ih = weight-take_request id xs y ys f in ground (arith, q, f, ih)
  ]

  weight-take_wait :
      (id : ℕ) (ws : List Wait) (w : Wait) (rest : List Wait)
      → take_by (λ w. w.id) id ws ≡ some (w, rest)
      → waits_weight ws ≡ alarm_weight w.alarm + waits_weight rest
  unfolding take_by
  weight-take_wait id [] r rest q = ground arith
  weight-take_wait id (x ∷ xs) r rest q = elim (Option-cases (take_by (λ w. w.id) id xs)) [
    | inl f ↦ ground (arith, q, f)
    | inr ((y, ys), f) ↦ let ih = weight-take_wait id xs y ys f in ground (arith, q, f, ih)
  ]

  -- What an event begins.
  abbrev pub begins : Event → ℕ
  begins (call_create path value) = e
  begins (call_list_watch path func) = l
  begins (call_list path func) = 0
  begins (call_watch_once after path func) = 0
  begins (done id reply stop) = 0
  begins (fired id err) = 0

  abbrev pub begun : List Event → ℕ
  begun [] = 0
  begun (ev ∷ evs) = begins ev + begun evs

  pending-step :
      (stoll : String → Option ℕ) (ev : Event) (s t : Etcd)
      → (stops ev ≡ false) ⊎ (l ≡ 0)
      → step stoll ev s ≡ some t
      → pending t ≡ begins ev + pending s
  unfolding step list watch_once start_list_watch on_timer
  pending-step stoll (call_create path value) s t n q =
      ground (arith, q, pending-create path value _ s)
  pending-step stoll (call_list_watch path func) s t n q = ground (arith, q)
  pending-step stoll (call_list path func) s t n q = ground (arith, q)
  pending-step stoll (call_watch_once after path func) s t n q = ground (arith, q)
  pending-step stoll (done id reply stop) s t n q =
      elim (Option-cases (take_by (λ r. r.id) id s.requests)) [
        | inl f ↦ ground (arith, q, f)
        | inr ((r, rest), f) ↦
            let k = weight-take_request id s.requests r rest f in
            let s' : Etcd = record s { requests = rest } in
            elim (Bool-cases (contains id s.http_clients)) [
              | inl c ↦
                  let g = pending-on_done stoll id r.task reply stop s' t n in
                  ground (arith, q, f, k, c, g)
              | inr c ↦ ground (arith, q, f, c)
            ]
      ]
  pending-step stoll (fired id err) s t n q = elim (Option-cases (take_by (λ w. w.id) id s.waits)) [
    | inl f ↦ ground (arith, q, f)
    | inr ((w, rest), f) ↦
        let k = weight-take_wait id s.waits w rest f in
        let s' : Etcd = record s { waits = rest } in
        ground (arith, q, f, k, pending-ring w.alarm err s')
  ]

  pending-run :
      (stoll : String → Option ℕ) (evs : List Event) (s t : Etcd)
      → NeverStops evs ⊎ (l ≡ 0)
      → run stoll evs s ≡ some t
      → pending t ≡ begun evs + pending s
  unfolding run
  pending-run stoll [] s t n q = ground (arith, q)
  pending-run stoll (ev ∷ evs) s t n q = elim (Option-cases (step stoll ev s)) [
    | inl f ↦ absurd (ground (arith, q, f))
    | inr (s', f) ↦
        let (head, tail) = split n in
        let k = pending-step stoll ev s s' head f in
        let g : run stoll evs s' ≡ some t = ground (arith, q, f) in
        omega (arith, k, pending-run stoll evs s' t tail g)
  ]
    where
      split :
          NeverStops (ev ∷ evs) ⊎ (l ≡ 0)
          → ((stops ev ≡ false) ⊎ (l ≡ 0)) × (NeverStops evs ⊎ (l ≡ 0))
      split (inl (a, b)) = (inl a, inl b)
      split (inr z) = (inr z, inr z)

-- As many tasks of CreateEphemeral are pending as calls were made.
pub ephemerals_kept :
    (stoll : String → Option ℕ) (evs : List Event) (t : Etcd)
    → run stoll evs make_etcd ≡ some t
    → pending 1 0 t ≡ begun 1 0 evs
unfolding make_etcd
ephemerals_kept stoll evs t q = omega (arith, pending-run 1 0 stoll evs make_etcd t (inr refl) q)

-- After any sequence of calls, replies and timers that does not crash and in which no user stops
-- a ListWatch, as many tasks of ListWatch are pending as there were calls of it.
pub list_watches_kept :
    (stoll : String → Option ℕ) (evs : List Event) (t : Etcd)
    → NeverStops evs
    → run stoll evs make_etcd ≡ some t
    → pending 0 1 t ≡ begun 0 1 evs
unfolding make_etcd
list_watches_kept stoll evs t n q = omega (arith, pending-run 0 1 stoll evs make_etcd t (inl n) q)
