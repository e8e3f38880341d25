-- ===== src/Net/TimerPoller/Updated.antt =====
-- UpdateEvent of src/net/common/poller/timer_poller.cpp on maps and a set of ids that agree.
use sheep_cpp.Base.{
  ℕ, suc, ◌≡◌, ◌↔◌, refl, ap, inl, inr, ◌⊎◌, true, false, some, if◌then◌else◌, ◌==◌, In, Distinct,
  ==_iff, Bool-cases, arith,
}
use sheep_cpp.Net.TimerPoller.{TimerPoller, insert_id, add_event, update_event}
use sheep_cpp.Net.TimerPoller.Maps.{at, at-add_event, add_event-IsSorted}
use sheep_cpp.Net.TimerPoller.Ids.{In-insert_id, insert_id-Distinct}
use sheep_cpp.Net.TimerPoller.Timed.{IsTimed, remove_event-IsTimed}

module _ (time : ℕ → ℕ) where
  update_new :
      (fuel id : ℕ) (p : TimerPoller)
      → IsTimed time p
      → p.event_set id ≡ false
      → (p' : TimerPoller) × (update_event (suc fuel) (time id) id p ≡ some p')
        × IsTimed time p'
        × ((j : ℕ) → p'.event_set j ≡ (if j == id then true else p.event_set j))
  unfolding update_event
  update_new fuel id p w e = (
    record {
      events = add_event (time id) id p.events;
      event_set = λ j. if j == id then true else p.event_set j;
    },
    ground (arith, e),
    record {
      sorted = add_event-IsSorted (time id) id p.events w.sorted;
      distinct = λ t. distincts t (Bool-cases (t == time id));
      holds = λ t i. member t i (Bool-cases (t == time id)) (Bool-cases (i == id));
    },
    λ j. refl,
  )
    where
      out : ¬ In id (at (time id) p.events)
      out k = let (_, f) = (w.holds (time id) id).0 k in ground (arith, e, f)

      at_new :
          (t : ℕ)
          → at t (add_event (time id) id p.events)
            ≡ (if t == time id then insert_id id (at (time id) p.events) else at t p.events)
      at_new t = at-add_event (time id) id t p.events w.sorted

      distincts :
          (t : ℕ)
          → ((t == time id) ≡ true) ⊎ ((t == time id) ≡ false)
          → Distinct (at t (add_event (time id) id p.events))
      distincts t (inl b) =
          rw (at_new t, b)
            (insert_id-Distinct id (at (time id) p.events) out (w.distinct (time id)))
      distincts t (inr b) = rw (at_new t, b) (w.distinct t)

      member :
          (t i : ℕ)
          → ((t == time id) ≡ true) ⊎ ((t == time id) ≡ false)
          → ((i == id) ≡ true) ⊎ ((i == id) ≡ false)
          → In i (at t (add_event (time id) id p.events))
            ↔ ((t ≡ time i) × ((if i == id then true else p.event_set i) ≡ true))
      member t i (inl b) (inl c) =
          let z = ap time ((==_iff i id).0 c) in
          rw (at_new t, b)
            (
              λ k. (ground (arith, z), ground arith),
              λ k. (In-insert_id i id (at (time id) p.events)).1 (inl ((==_iff i id).0 c)),
            )
      member t i (inl b) (inr c) =
          let (u, v) = In-insert_id i id (at (time id) p.events) in
          let (x, y) = w.holds (time id) i in
          rw (at_new t, b)
            (
              λ k. elim (u k) [
                | inl q ↦ absurd (ground arith)
                | inr q ↦ let (k1, k2) = x q in (ground (arith, k1), ground (arith, k2))
              ],
              λ (k, l). v (inr (y (ground (arith, k), ground (arith, l)))),
            )
      member t i (inr b) (inl c) =
          let z = ap time ((==_iff i id).0 c) in
          let (x, y) = w.holds t i in
          rw (at_new t, b)
            (
              λ k. let (k1, k2) = x k in absurd (ground (arith, k1, z)),
              λ (k, l). absurd (ground (arith, k, z)),
            )
      member t i (inr b) (inr c) =
          let (x, y) = w.holds t i in
          rw (at_new t, b)
            (
              λ k. let (k1, k2) = x k in (k1, ground (arith, k2)),
              λ (k, l). y (k, ground (arith, l)),
            )

  -- On a timer poller whose maps and set of ids agree, UpdateEvent of an event with its own
  -- time ends within two calls, the poller agrees again, and its set of ids is the old one with
  -- this id.
  pub update_event-IsTimed :
      (id : ℕ) (p : TimerPoller)
      → IsTimed time p
      → (p' : TimerPoller) × (update_event 2 (time id) id p ≡ some p')
        × IsTimed time p'
        × ((j : ℕ) → p'.event_set j ≡ (if j == id then true else p.event_set j))
  unfolding update_event
  update_event-IsTimed id p w = elim (Bool-cases (p.event_set id)) [
    | inl e ↦
        let (q, f, v, g) = remove_event-IsTimed time id p w in
        let (p', h, x, k) = update_new 0 id q v (let z = g id in ground (arith, z)) in
        (p', ground (arith, e, f, h), x, λ j. let a = g j in let b = k j in ground (arith, a, b))
    | inr e ↦ update_new 1 id p w e
  ]
