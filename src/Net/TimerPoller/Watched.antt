-- ===== src/Net/TimerPoller/Watched.antt =====
-- What Poll of src/net/common/poller/timer_poller.cpp returns.
use sheep_cpp.Base.{
  ℕ, ◌≤◌, ◌≡◌, ◌↔◌, refl, ap, subst, ◌∙◌, inl, inr, true, some, List, [], ◌∷◌, ◌==◌, In, ==_iff,
  Bool-cases, Option-cases, arith,
}
use sheep_cpp.Net.Event.{Event, Store, set_read_able, put_event}
use sheep_cpp.Net.TimerPoller.{TimerPoller, due, poll_due, poll}
use sheep_cpp.Net.TimerPoller.Maps.{In-due}
use sheep_cpp.Net.TimerPoller.Timed.{IsTimed}

abbrev pub Exists : Store → ℕ → Type 0
Exists store i = (e : Event) × (store i ≡ some e)

put-Exists :
    (store : Store) (k i : ℕ) (v w : Event)
    → store k ≡ some v
    → Exists (put_event store k w) i ↔ Exists store i
put-Exists store k i v w e = elim (Bool-cases (i == k)) [
  | inl b ↦ (λ h. (v, ap store ((==_iff i k).0 b) ∙ e), λ h. (w, ground arith))
  | inr b ↦ (λ (a, h). (a, ground (arith, h)), λ (a, h). (a, ground (arith, h)))
]

In-poll_due :
    (i : ℕ) (q : List ℕ) (store : Store) → In i (poll_due q store).0 ↔ (In i q × Exists store i)
unfolding poll_due
In-poll_due i [] store = (λ k. absurd k, λ k. absurd k.0)
In-poll_due i (j ∷ q) store = elim (Option-cases (store j)) [
  | inl e ↦
      let (f, g) = In-poll_due i q store in
      rw (e, poll_due)
        (
          λ k. let (a, b) = f k in (inr a, b),
          λ (k, (v, h)). elim k [
            | inl x ↦ let z = ap store x in absurd (ground (arith, z, e, h))
            | inr x ↦ g (x, (v, h))
          ],
        )
  | inr (v, e) ↦
      let st = put_event store j (set_read_able v) in
      let (f, g) = In-poll_due i q st in
      let (a, b) = put-Exists store j i v (set_read_able v) e in
      rw (e, poll_due)
        (
          λ k. elim k [
            | inl x ↦ (inl x, (v, ap store x ∙ e))
            | inr x ↦ let (y, z) = f x in (inr y, a z)
          ],
          λ (k, h). elim k [ inl x ↦ inl x | inr x ↦ inr (g (x, b h)) ],
        )
]

-- Poll of a timer poller whose maps and set of ids agree returns an event exactly if it is
-- watched, its time is not later than now, and it still exists.
pub In-poll :
    (time : ℕ → ℕ) (now i : ℕ) (p : TimerPoller) (store : Store)
    → IsTimed time p
    → In i (poll now p store).0 ↔ ((p.event_set i ≡ true) × (time i ≤ now) × Exists store i)
unfolding poll
In-poll time now i p store w =
    let (f, g) = In-poll_due i (due now p.events) store in
    let (a, b) = In-due now i p.events w.sorted in
    (
      λ k.
          let (m, h) = f k in
          let (t, l, n) = a m in
          let (x, y) = (w.holds t i).0 n in (y, subst (λ (z : ℕ). z ≤ now) x l, h),
      λ (s, l, h). g (b (time i, l, (w.holds (time i) i).1 (refl, s)), h),
    )
