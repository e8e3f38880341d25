-- ===== src/Net/TimerPoller/Timed.antt =====
-- How RemoveEvent of src/net/common/poller/timer_poller.cpp keeps its maps and set of ids together.
use sheep_cpp.Base.{
  ℕ, ◌≡◌, ◌↔◌, refl, ap, inl, inr, ◌⊎◌, Bool, true, false, some, List, [], ◌∷◌, if◌then◌else◌, ◌==◌,
  length, In, Distinct, ==_iff, Bool-cases, arith,
}
use sheep_cpp.Net.TimerPoller.{
  TimerPoller, make_timer_poller, erase_time, erase_id, erase_event, remove_event,
}
use sheep_cpp.Net.TimerPoller.Maps.{
  at, IsSorted, find_time-at, at-erase_time, at-erase_event, erase_time-IsSorted,
  erase_event-IsSorted,
}
use sheep_cpp.Net.TimerPoller.Ids.{In-erase_id, erase_id-Distinct}

-- `time` gives the fd of each event.
module _ (time : ℕ → ℕ) where
  pub record IsTimed (p : TimerPoller) : Type 0 where
    pub sorted : IsSorted p.events
    pub distinct : (t : ℕ) → Distinct (at t p.events)
    pub holds : (t i : ℕ) → In i (at t p.events) ↔ ((t ≡ time i) × (p.event_set i ≡ true))

  pub make-IsTimed : IsTimed make_timer_poller
  unfolding make_timer_poller
  make-IsTimed = record { sorted = tt; distinct = λ t. tt; holds = λ t i. (λ k. absurd k, λ k. cc) }

  -- The id is taken out of its time, whichever way the maps are changed.
  taken_out :
      (p q : TimerPoller) (id : ℕ)
      → IsTimed p
      → IsSorted q.events
      → ((t : ℕ)
          → at t q.events
            ≡ (if t == time id then erase_id id (at (time id) p.events) else at t p.events))
      → ((j : ℕ) → q.event_set j ≡ (if j == id then false else p.event_set j))
      → IsTimed q
  taken_out p q id w s e f = record {
    sorted = s;
    distinct = λ t. distincts t (Bool-cases (t == time id));
    holds = λ t i. member t i (Bool-cases (t == time id)) (Bool-cases (i == id));
  }
    where
      distincts :
          (t : ℕ) → ((t == time id) ≡ true) ⊎ ((t == time id) ≡ false) → Distinct (at t q.events)
      distincts t (inl b) =
          rw (e t, b) (erase_id-Distinct id (at (time id) p.events) (w.distinct (time id)))
      distincts t (inr b) = rw (e t, b) (w.distinct t)

      member :
          (t i : ℕ)
          → ((t == time id) ≡ true) ⊎ ((t == time id) ≡ false)
          → ((i == id) ≡ true) ⊎ ((i == id) ≡ false)
          → In i (at t q.events) ↔ ((t ≡ time i) × (q.event_set i ≡ true))
      member t i (inl b) c =
          let (u, v) = In-erase_id i id (at (time id) p.events) (w.distinct (time id)) in
          let (x, y) = w.holds (time id) i in
          let g = f i in
          let h : at t q.events ≡ erase_id id (at (time id) p.events) = ground (arith, e t) in
          rw h (
            λ k.
                let (k1, k2) = u k in
                let (k3, k4) = x k1 in (ground (arith, k3), ground (arith, g, k2, k4)),
            λ (k, l). v (y (ground (arith, k), ground (arith, g, l)), ground (arith, g, l)),
          )
      member t i (inr b) c =
          let (x, y) = w.holds t i in
          let g = f i in
          let h : at t q.events ≡ at t p.events = ground (arith, e t) in
          rw h (
            λ k. let (k1, k2) = x k in (k1, other t i b c k1 k2 g),
            λ (k, l). y (k, ground (arith, g, l)),
          )
        where
          other :
              (t i : ℕ)
              → (t == time id) ≡ false
              → ((i == id) ≡ true) ⊎ ((i == id) ≡ false)
              → t ≡ time i
              → p.event_set i ≡ true
              → q.event_set i ≡ (if i == id then false else p.event_set i)
              → q.event_set i ≡ true
          other t i b (inl c) k l g =
              let z = ap time ((==_iff i id).0 c) in absurd (ground (arith, k, z))
          other t i b (inr c) k l g = ground (arith, g, l)

  one_left : (i : ℕ) (js : List ℕ) → In i js → length js ≡ 1 → erase_id i js ≡ []
  unfolding erase_id
  one_left i [] k e = absurd k
  one_left i (j ∷ []) (inl k) e = ground arith
  one_left i (j ∷ []) (inr k) e = absurd k
  one_left i (j ∷ l ∷ js) k e = absurd (omega arith)

  -- On a timer poller whose maps and set of ids agree, RemoveEvent of an event with its own
  -- time does not reach the fatal line, the poller agrees again, and its set of ids is the old
  -- one without this id.
  pub remove_event-IsTimed :
      (id : ℕ) (p : TimerPoller)
      → IsTimed p
      → (p' : TimerPoller) × (remove_event (time id) id p ≡ some p')
        × IsTimed p'
        × ((j : ℕ) → p'.event_set j ≡ (if j == id then false else p.event_set j))
  unfolding remove_event
  remove_event-IsTimed id p w = elim (Bool-cases (p.event_set id)) [
    | inl e ↦
        let i = (w.holds (time id) id).1 (refl, e) in
        let f = find_time-at (time id) p.events id i in
        let set : ℕ → Bool = λ j. if j == id then false else p.event_set j in
        elim (Bool-cases (length (at (time id) p.events) == 1)) [
          | inl l ↦
              let q : TimerPoller = record {
                events = erase_time (time id) p.events;
                event_set = set;
              } in
              let z = one_left id (at (time id) p.events) i ((==_iff _ 1).0 l) in
              (
                q,
                ground (arith, e, f, l),
                taken_out p q id w (erase_time-IsSorted (time id) p.events w.sorted)
                    (λ t.
                      let g = at-erase_time (time id) t p.events w.sorted in ground (arith, g, z))
                    (λ j. refl),
                λ j. refl,
              )
          | inr l ↦
              let q : TimerPoller = record {
                events = erase_event (time id) id p.events;
                event_set = set;
              } in
              (
                q,
                ground (arith, e, f, l),
                taken_out p q id w (erase_event-IsSorted (time id) id p.events w.sorted)
                    (λ t. at-erase_event (time id) id t p.events) (λ j. refl),
                λ j. refl,
              )
        ]
    | inr e ↦ (p, ground (arith, e), w, λ j. same j (Bool-cases (j == id)) e)
  ]
    where
      same :
          (j : ℕ)
          → ((j == id) ≡ true) ⊎ ((j == id) ≡ false)
          → p.event_set id ≡ false
          → p.event_set j ≡ (if j == id then false else p.event_set j)
      same j (inl b) e = let z = ap p.event_set ((==_iff j id).0 b) in ground (arith, z, e)
      same j (inr b) e = ground arith
