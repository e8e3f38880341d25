-- ===== src/Net/Timer/Once.antt =====
-- The calls of handlers in the life of a timer of src/net/common/timer/timer.cpp.
use sheep_cpp.Base.{
  ℕ, ◌≡◌, refl, ap, Bool, true, false, Option, none, some, List, [], ◌∷◌, ◌++◌, empty, says,
  is_empty, Bool-cases, inl, inr, arith,
}
use sheep_cpp.Net.Asyncer
use sheep_cpp.Net.Asyncer.{Asyncer, Called, called}
use sheep_cpp.Net.Timer.{
  Timer, make_timer, deliver, on_posted, cancel_asyncer, cancel_event, cancel, async_wait, post,
  fire, destroy, Op, cancels, posts, fires, waits, step,
}

unfoldable pub life : List Op → Timer → List Called
unfolding step destroy
life [] t = destroy t
life (op ∷ ops) t = let (t', calls) = step op t in calls ++ life ops t'

abbrev pub refusals : List Op → List Called
refusals [] = []
refusals (waits h ∷ ops) = called h (says "Timer can't reuse") ++ refusals ops
refusals (_ ∷ ops) = refusals ops

-- The calls, while the event waits for its time.
abbrev pub armed : ℕ → List Op → List Called
armed h [] = called h (says "Timer Canceled")
armed h (cancels ∷ ops) = called h (says "Timer Canceled") ++ refusals ops
armed h (posts ∷ ops) = armed h ops
armed h (fires ∷ ops) = called h empty ++ refusals ops
armed h (waits k ∷ ops) = called k (says "Timer can't reuse") ++ armed h ops

-- The calls, while the setting of the event waits for the loop.
abbrev pub posted : ℕ → List Op → List Called
posted h [] = called h (says "Timer Canceled")
posted h (cancels ∷ ops) = called h (says "Asyncer Canceled") ++ refusals ops
posted h (posts ∷ ops) = armed h ops
posted h (fires ∷ ops) = posted h ops
posted h (waits k ∷ ops) = called k (says "Timer can't reuse") ++ posted h ops

record IsDone (t : Timer) : Type 0 where
  used : t.used ≡ true
  done : t.done ≡ true

abbrev Quiet : Timer × List Called → Type 0
Quiet r = (r.1 ≡ []) × IsDone r.0

deliver-IsDone : (ks : List Called) (t : Timer) → IsDone t → Quiet (deliver ks t)
unfolding deliver on_posted
deliver-IsDone [] t d = (refl, d)
deliver-IsDone (k ∷ ks) t d =
    let u = d.used in
    let v = d.done in
    let a = deliver-IsDone ks t d in
    let (b, c) =
      deliver-IsDone ks (record t { event = some true })
        (record { used = d.used; done = d.done }) in
    elim (Bool-cases (is_empty k.err_msg)) [
      | inl e ↦ (
        ground (arith, b, e),
        record {
          used = let z = c.used in ground (arith, z, e, v);
          done = let z = c.done in ground (arith, z, e, v);
        },
      )
      | inr e ↦ (
        let z = a.0 in ground (arith, z, e, v),
        record {
          used = let z = a.1.used in ground (arith, z, e, v);
          done = let z = a.1.done in ground (arith, z, e, v);
        },
      )
    ]

cancel_asyncer-IsDone : (t : Timer) → IsDone t → Quiet (cancel_asyncer t)
unfolding cancel_asyncer
cancel_asyncer-IsDone t d = go t.asyncer refl
  where
    go : (o : Option Asyncer) → t.asyncer ≡ o → Quiet (cancel_asyncer t)
    go none e = rw (e, cancel_asyncer) (refl, d)
    go (some a) e =
        rw (e, cancel_asyncer)
          (deliver-IsDone (Asyncer.cancel a).1 (record t { asyncer = some (Asyncer.cancel a).0 })
            (record { used = d.used; done = d.done }))

cancel_event-IsDone : (t : Timer) → IsDone t → Quiet (cancel_event t)
unfolding cancel_event
cancel_event-IsDone t d =
    let u = d.used in
    let v = d.done in
    (ground (arith, v), record { used = ground (arith, u, v); done = ground (arith, u, v) })

cancel-IsDone : (t : Timer) → IsDone t → Quiet (cancel t)
unfolding cancel
cancel-IsDone t d =
    let (a, b) = cancel_asyncer-IsDone t d in
    let (x, y) = cancel_event-IsDone (cancel_asyncer t).0 b in (rw (a, x) refl, y)

post-IsDone : (t : Timer) → IsDone t → Quiet (post t)
unfolding post
post-IsDone t d = go t.asyncer refl
  where
    go : (o : Option Asyncer) → t.asyncer ≡ o → Quiet (post t)
    go none e = rw (e, post) (refl, d)
    go (some a) e =
        rw (e, post)
          (deliver-IsDone (Asyncer.fire a).1 (record t { asyncer = some (Asyncer.fire a).0 })
            (record { used = d.used; done = d.done }))

fire-IsDone : (t : Timer) → IsDone t → Quiet (fire t)
unfolding fire
fire-IsDone t d =
    let u = d.used in
    let v = d.done in
    (ground (arith, v), record { used = ground (arith, u, v); done = ground (arith, u, v) })

async_wait_used :
    (h : ℕ) (t : Timer)
    → t.used ≡ true
    → async_wait true h t ≡ (t, called h (says "Timer can't reuse"))
unfolding async_wait
async_wait_used h t e = rw e refl

life-IsDone : (ops : List Op) (t : Timer) → IsDone t → life ops t ≡ refusals ops
unfolding life
life-IsDone [] t d = let v = d.done in ground (arith, v)
life-IsDone (cancels ∷ ops) t d =
    let (a, b) = cancel-IsDone t d in rw a (life-IsDone ops (cancel t).0 b)
life-IsDone (posts ∷ ops) t d = let (a, b) = post-IsDone t d in rw a (life-IsDone ops (post t).0 b)
life-IsDone (fires ∷ ops) t d = let (a, b) = fire-IsDone t d in rw a (life-IsDone ops (fire t).0 b)
life-IsDone (waits h ∷ ops) t d =
    rw (async_wait_used h t d.used)
      (ap (λ (l : List Called). called h (says "Timer can't reuse") ++ l) (life-IsDone ops t d))

-- The asyncer after it was called or canceled, and before.
abbrev spent : Bool → Asyncer
spent n = record { handler = some 0; event = some n; done = true; used = true }

abbrev waiting : Asyncer
waiting = record { handler = some 0; event = some true; done = false; used = true }

abbrev armed_timer : ℕ → Bool → Timer
armed_timer h n = record {
  handler = some h;
  asyncer = some (spent n);
  event = some true;
  done = false;
  used = true;
}

abbrev posted_timer : ℕ → Timer
posted_timer h = record {
  handler = some h;
  asyncer = some waiting;
  event = none;
  done = false;
  used = true;
}

life-armed_timer : (h : ℕ) (n : Bool) (ops : List Op) → life ops (armed_timer h n) ≡ armed h ops
unfolding life Asyncer.cancel Asyncer.fire
life-armed_timer h n [] = refl
life-armed_timer h n (cancels ∷ ops) =
    ap (λ (l : List Called). called h (says "Timer Canceled") ++ l)
      (life-IsDone ops (cancel (armed_timer h n)).0 (record { used = refl; done = refl }))
life-armed_timer h true (posts ∷ ops) = life-armed_timer h false ops
life-armed_timer h false (posts ∷ ops) = life-armed_timer h false ops
life-armed_timer h n (fires ∷ ops) =
    ap (λ (l : List Called). called h empty ++ l)
      (life-IsDone ops (fire (armed_timer h n)).0 (record { used = refl; done = refl }))
life-armed_timer h n (waits k ∷ ops) =
    ap (λ (l : List Called). called k (says "Timer can't reuse") ++ l) (life-armed_timer h n ops)

life-posted_timer : (h : ℕ) (ops : List Op) → life ops (posted_timer h) ≡ posted h ops
unfolding life Asyncer.cancel Asyncer.fire
life-posted_timer h [] = refl
life-posted_timer h (cancels ∷ ops) =
    ap (λ (l : List Called). called h (says "Asyncer Canceled") ++ l)
      (life-IsDone ops (cancel (posted_timer h)).0 (record { used = refl; done = refl }))
life-posted_timer h (posts ∷ ops) = life-armed_timer h false ops
life-posted_timer h (fires ∷ ops) = life-posted_timer h ops
life-posted_timer h (waits k ∷ ops) =
    ap (λ (l : List Called). called k (says "Timer can't reuse") ++ l) (life-posted_timer h ops)

-- Whatever is done with a timer after its first AsyncWait, up to its destruction: the handler is
-- called exactly once, without an error if the loop first posts the event and then fires it, and
-- as canceled otherwise; each further AsyncWait is refused at once.
life-posted :
    (h : ℕ) (ops : List Op) (junk : Bool) → life (waits h ∷ ops) (make_timer junk) ≡ posted h ops
unfolding life make_timer Asyncer.async_do Asyncer.make_asyncer
life-posted h ops junk = life-posted_timer h ops
