-- ===== src/Util/BlockQueue.antt =====
-- src/extends/small_packages/small_block_queue: a queue of callbacks and the thread that is to run
-- them.
use sheep_cpp.Base.{
  ℕ, ◌≡◌, inl, inr, Bool-cases, refl, ap, sym, subst, ◌∙◌, Bool, true, false, List, [], ◌∷◌, ◌++◌,
  if◌then◌else◌, arith,
}

-- Where the thread of looper is: before the test of stop_, in cv_.wait, or at its end.
pub data Place : Type 0 where
  tests waits ended : Place

pub record BlockQueue : Type 0 where
  pub cbs : List ℕ
  pub stop : Bool
  pub place : Place
  -- the callbacks that have been called
  pub called : List ℕ

unfoldable pub make_queue : BlockQueue
make_queue = record { cbs = []; stop = false; place = tests; called = [] }

abbrev pub is_nil : List ℕ → Bool
is_nil [] = true
is_nil (x ∷ xs) = false

-- Push and PushWithoutLock
unfoldable pub push : ℕ → BlockQueue → BlockQueue
push cb q = record q { cbs = q.cbs ++ cb ∷ [] }

-- ~BlockQueue, before it joins the thread
unfoldable pub stop_queue : BlockQueue → BlockQueue
stop_queue q = record q { stop = true }

-- The predicate of cv_.wait, and the loop over the callbacks once it holds.
unfoldable pub pass : BlockQueue → BlockQueue
pass q =
    if is_nil q.cbs
    then record q { place = tests; called = q.called ++ q.cbs }
    else record q { place = waits }

-- What the thread does when it runs: from the test of stop_, or woken in cv_.wait.
unfoldable pub turn_at : Place → BlockQueue → BlockQueue
unfolding pass
turn_at tests q = if q.stop then record q { place = ended } else pass q
turn_at waits q = pass q
turn_at ended q = q

unfoldable pub turn : BlockQueue → BlockQueue
unfolding turn_at
turn q = turn_at q.place q

-- Other threads push or destroy, and the thread of the queue gets a turn, also for no reason.
pub data Move : Type 0 where
  pushes : ℕ → Move
  destroys turns : Move

unfoldable pub moves : List Move → BlockQueue → BlockQueue
unfolding push stop_queue turn
moves [] q = q
moves (pushes cb ∷ ms) q = moves ms (push cb q)
moves (destroys ∷ ms) q = moves ms (stop_queue q)
moves (turns ∷ ms) q = moves ms (turn q)

-- Nothing was called, and where the thread waits there are callbacks.
record Idle (q : BlockQueue) : Type 0 where
  uncalled : q.called ≡ []
  filled : q.place ≡ waits → is_nil q.cbs ≡ false

is_nil-snoc : (xs : List ℕ) (x : ℕ) → is_nil (xs ++ x ∷ []) ≡ false
is_nil-snoc [] x = refl
is_nil-snoc (y ∷ xs) x = refl

pass-Idle : (q : BlockQueue) → q.called ≡ [] → Idle (pass q)
unfolding pass
pass-Idle q c = by_cbs q.cbs refl
  where
    by_cbs : (xs : List ℕ) → q.cbs ≡ xs → Idle (pass q)
    by_cbs [] e = rw e (record { uncalled = rw c refl; filled = λ h. absurd (ground (arith, h)) })
    by_cbs (x ∷ xs) e = rw e (record { uncalled = c; filled = λ h. refl })

turn_at-Idle : (p : Place) (q : BlockQueue) → Idle q → Idle (turn_at p q)
unfolding turn_at
turn_at-Idle tests q v = elim (Bool-cases q.stop) [
  | inl s ↦
      let done : Idle (record q { place = ended }) = record {
        uncalled = v.uncalled;
        filled = λ h. absurd (ground (arith, h));
      } in
      subst Idle (ap (λ b. if b then record q { place = ended } else pass q) (sym s)) done
  | inr s ↦
      subst Idle (ap (λ b. if b then record q { place = ended } else pass q) (sym s))
        (pass-Idle q v.uncalled)
]
turn_at-Idle waits q v = pass-Idle q v.uncalled
turn_at-Idle ended q v = v

moves-Idle : (ms : List Move) (q : BlockQueue) → Idle q → Idle (moves ms q)
unfolding moves push stop_queue turn
moves-Idle [] q v = v
moves-Idle (pushes cb ∷ ms) q v =
    moves-Idle ms (push cb q) (record { uncalled = v.uncalled; filled = λ h. is_nil-snoc q.cbs cb })
moves-Idle (destroys ∷ ms) q v =
    moves-Idle ms (stop_queue q) (record { uncalled = v.uncalled; filled = v.filled })
moves-Idle (turns ∷ ms) q v = moves-Idle ms (turn q) (turn_at-Idle q.place q v)

turn-waits : (q : BlockQueue) → Idle q → q.place ≡ waits → turn q ≡ q
unfolding turn turn_at pass
turn-waits q v e =
    ap (λ p. turn_at p q) e
    ∙ ap
        (λ b.
          if b
          then record q { place = tests; called = q.called ++ q.cbs }
          else record q { place = waits })
        (v.filled e)
    ∙ ap (λ p. record q { place = p }) (sym e)

moves-waits :
    (ms : List Move) (q : BlockQueue) → Idle q → q.place ≡ waits → (moves ms q).place ≡ waits
unfolding moves push stop_queue
moves-waits [] q v e = e
moves-waits (pushes cb ∷ ms) q v e =
    moves-waits ms (push cb q)
      (record { uncalled = v.uncalled; filled = λ h. is_nil-snoc q.cbs cb }) e
moves-waits (destroys ∷ ms) q v e =
    moves-waits ms (stop_queue q) (record { uncalled = v.uncalled; filled = v.filled }) e
moves-waits (turns ∷ ms) q v e =
    subst (λ r. (moves ms r).place ≡ waits) (sym (turn-waits q v e)) (moves-waits ms q v e)

-- Whatever callbacks are pushed and however the thread of the queue is scheduled, no callback is
-- ever called; and once the thread waits, it waits for ever, also when the queue is destroyed.
pub never_called :
    (ms ns : List Move)
    → ((moves ms make_queue).called ≡ [])
      × ((moves ms make_queue).place ≡ waits → (moves ns (moves ms make_queue)).place ≡ waits)
unfolding make_queue
never_called ms ns =
    let v =
      moves-Idle ms make_queue
        (record { uncalled = refl; filled = λ h. absurd (ground (arith, h)) }) in
    (v.uncalled, moves-waits ns (moves ms make_queue) v)
