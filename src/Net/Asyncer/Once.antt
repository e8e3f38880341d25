-- ===== src/Net/Asyncer/Once.antt =====
-- The calls of handlers in the life of an asyncer of src/net/common/asyncer/asyncer.cpp.
use sheep_cpp.Base.{
  ℕ, ◌≡◌, refl, ap, Bool, true, false, some, List, [], ◌∷◌, ◌++◌, empty, says, arith,
}
use sheep_cpp.Net.Asyncer.{
  Asyncer, Called, called, make_asyncer, cancel, async_do, fire, destroy, Op, cancels, fires, does,
  step,
}

-- All calls of handlers while the operations `ops` run and the asyncer then goes away.
unfoldable pub life : List Op → Asyncer → List Called
unfolding step destroy
life [] a = destroy a
life (op ∷ ops) a = let (a', calls) = step op a in calls ++ life ops a'

-- The calls that `ops` and the end owe to the handler `h`; a further async_do is refused at once.
abbrev pub refusals : List Op → List Called
refusals [] = []
refusals (does h ∷ ops) = called h (says "Asyncer can't reuse") ++ refusals ops
refusals (_ ∷ ops) = refusals ops

-- The calls, with the one to `h` where the first cancellation or firing stands.
abbrev pub expected : ℕ → List Op → List Called
expected h [] = called h (says "Asyncer Canceled")
expected h (cancels ∷ ops) = called h (says "Asyncer Canceled") ++ refusals ops
expected h (fires ∷ ops) = called h empty ++ refusals ops
expected h (does k ∷ ops) = called k (says "Asyncer can't reuse") ++ expected h ops

record IsWaiting (h : ℕ) (a : Asyncer) : Type 0 where
  used : a.used ≡ true
  done : a.done ≡ false
  handler : a.handler ≡ some h
  event : a.event ≡ some true

record IsDone (a : Asyncer) : Type 0 where
  used : a.used ≡ true
  done : a.done ≡ true

cancel-IsDone : (a : Asyncer) → IsDone a → ((cancel a).1 ≡ []) × IsDone (cancel a).0
unfolding cancel
cancel-IsDone a d = (ground arith, record { used = ground arith; done = ground arith })

fire-IsDone : (a : Asyncer) → IsDone a → ((fire a).1 ≡ []) × IsDone (fire a).0
unfolding fire
fire-IsDone a d = (ground arith, record { used = ground arith; done = ground arith })

async_do_used :
    (h : ℕ) (a : Asyncer)
    → a.used ≡ true
    → async_do h a ≡ (a, called h (says "Asyncer can't reuse"))
unfolding async_do
async_do_used h a u = ground arith

cancel-IsWaiting :
    (h : ℕ) (a : Asyncer)
    → IsWaiting h a
    → ((cancel a).1 ≡ called h (says "Asyncer Canceled")) × IsDone (cancel a).0
unfolding cancel
cancel-IsWaiting h a w = (ground arith, record { used = ground arith; done = ground arith })

fire-IsWaiting :
    (h : ℕ) (a : Asyncer) → IsWaiting h a → ((fire a).1 ≡ called h empty) × IsDone (fire a).0
unfolding fire
fire-IsWaiting h a w = (ground arith, record { used = ground arith; done = ground arith })

async_do-IsWaiting :
    (h : ℕ) (junk : Bool)
    → ((async_do h (make_asyncer junk)).1 ≡ []) × IsWaiting h (async_do h (make_asyncer junk)).0
unfolding async_do make_asyncer
async_do-IsWaiting h junk =
    (refl, record { used = refl; done = refl; handler = refl; event = refl })

life-IsDone : (ops : List Op) (a : Asyncer) → IsDone a → life ops a ≡ refusals ops
unfolding life
life-IsDone [] a d = ground arith
life-IsDone (cancels ∷ ops) a d =
    let (e, d') = cancel-IsDone a d in rw e (life-IsDone ops (cancel a).0 d')
life-IsDone (fires ∷ ops) a d =
    let (e, d') = fire-IsDone a d in rw e (life-IsDone ops (fire a).0 d')
life-IsDone (does h ∷ ops) a d =
    rw (async_do_used h a d.used)
      (ap (λ (l : List Called). called h (says "Asyncer can't reuse") ++ l) (life-IsDone ops a d))

life-IsWaiting : (h : ℕ) (ops : List Op) (a : Asyncer) → IsWaiting h a → life ops a ≡ expected h ops
unfolding life
life-IsWaiting h [] a w = ground arith
life-IsWaiting h (cancels ∷ ops) a w =
    let (e, d) = cancel-IsWaiting h a w in
    rw e (
      ap (λ (l : List Called). called h (says "Asyncer Canceled") ++ l)
        (life-IsDone ops (cancel a).0 d))
life-IsWaiting h (fires ∷ ops) a w =
    let (e, d) = fire-IsWaiting h a w in
    rw e (ap (λ (l : List Called). called h empty ++ l) (life-IsDone ops (fire a).0 d))
life-IsWaiting h (does k ∷ ops) a w = rw (async_do_used k a w.used) (
    ap (λ (l : List Called). called k (says "Asyncer can't reuse") ++ l) (life-IsWaiting h ops a w))

-- Whatever is done with an asyncer after its first AsyncDo, up to its destruction: the handler is
-- called exactly once, without an error if the loop fires first and as canceled otherwise, and
-- each further AsyncDo is refused at once.
pub life-expected :
    (h : ℕ) (ops : List Op) (junk : Bool) → life (does h ∷ ops) (make_asyncer junk) ≡ expected h ops
unfolding life
life-expected h ops junk = let (e, w) = async_do-IsWaiting h junk in rw e (life-IsWaiting h ops _ w)
