-- ===== src/Flow/Order.antt =====
-- The order of the ploys in a flow of src/extends/small_flow/small_flow.h.
use sheep_cpp.Base.{
  ℕ, zero, suc, ◌+◌, ◌<◌, ◌≤◌, ◌≡◌, refl, ap, ◌∙◌, Bool, true, false, not, List, [], ◌∷◌, ◌++◌,
  if◌then◌else◌, drop, length, length-drop, All, is_empty, arith,
}
use sheep_cpp.Flow.{FlowCtx, Ploy, Ran, loop, run}

abbrev pub range : ℕ → ℕ → List ℕ
range i zero = []
range i (suc k) = i ∷ range (i + 1) k

-- A ploy leaves the index to the service.
abbrev pub KeepsIndex : Ploy → Type 0
KeepsIndex ploy = (ctx : FlowCtx) → (ploy ctx).next_index ≡ ctx.next_index

-- `k` ploys ran, from `i` on in order; the next one is known; and unless the flow ended with an error,
-- it ran to the end or is suspended.
pub record RanFrom (i total : ℕ) (r : Ran) : Type 0 where
  pub count : ℕ
  pub order : r.ran ≡ range i count
  pub next : r.ctx.next_index ≡ i + count
  pub suspended :
      r.finished ≡ false → (is_empty r.ctx.err_msg ≡ true) × (0 < count) × (i + count ≤ total)
  pub ended : r.finished ≡ true → is_empty r.ctx.err_msg ≡ true → i + count ≡ total

loop-RanFrom :
    (i total : ℕ) (ploys : List Ploy) (ctx : FlowCtx)
    → All KeepsIndex ploys
    → ctx.next_index ≡ i
    → i + length ploys ≡ total
    → RanFrom i total (loop i ploys ctx)
unfolding loop
loop-RanFrom i total [] ctx v e l = record {
  count = 0;
  order = refl;
  next = omega (arith, e);
  suspended = λ f. cc;
  ended = λ f g. omega arith;
}
loop-RanFrom i total (ploy ∷ ploys) ctx v e l =
    let c : FlowCtx = ploy (record ctx { next_index = i + 1 }) in
    let n : c.next_index ≡ i + 1 = v.0 (record ctx { next_index = i + 1 }) in
    let r = loop-RanFrom (i + 1) total ploys c v.1 n (omega arith) in
    ran-if (not (is_empty c.err_msg))
      (λ b. record {
        count = 1;
        order = refl;
        next = n;
        suspended = λ f. cc;
        ended = λ f g. absurd (ground (arith, b, g));
      })
      (λ b.
        ran-if c.suspend
          (λ s. record {
            count = 1;
            order = refl;
            next = n;
            suspended = λ f. (ground (arith, b), omega arith, omega arith);
            ended = λ f g. cc;
          })
          (λ s. record {
            count = suc r.count;
            order = ap (◌∷◌ i) r.order;
            next = r.next ∙ omega arith;
            suspended = λ f. let (x, y, z) = r.suspended f in (x, omega arith, omega arith);
            ended = λ f g. let z = r.ended f g in omega arith;
          }))
  where
    ran-if :
        (b : Bool) {x y : Ran}
        → (b ≡ true → RanFrom i total x)
        → (b ≡ false → RanFrom i total y)
        → RanFrom i total (if b then x else y)
    ran-if true f g = f refl
    ran-if false f g = g refl

pub run-RanFrom :
    (ploys : List Ploy) (ctx : FlowCtx)
    → All KeepsIndex ploys
    → is_empty ctx.err_msg ≡ true
    → ctx.next_index ≤ length ploys
    → RanFrom ctx.next_index (length ploys) (run ploys ctx)
unfolding run
run-RanFrom ploys ctx v e l = rw e (
    loop-RanFrom ctx.next_index (length ploys) (drop ctx.next_index ploys)
      (record ctx { suspend = false }) (All-drop ctx.next_index ploys v) refl
      (omega (arith, length-drop ctx.next_index ploys)))
  where
    All-drop : (n : ℕ) (qs : List Ploy) → All KeepsIndex qs → All KeepsIndex (drop n qs)
    All-drop zero qs v = v
    All-drop (suc n) [] v = tt
    All-drop (suc n) (q ∷ qs) v = All-drop n qs v.1

-- Run until it has finished, at most `fuel` times, with the ploys that ran.
unfoldable pub run_all : ℕ → List Ploy → FlowCtx → Ran
run_all zero ploys ctx = record { ctx = ctx; ran = []; finished = false }
run_all (suc fuel) ploys ctx =
    let first = run ploys ctx in
    let rest = run_all fuel ploys first.ctx in
    if first.finished then first else record rest { ran = first.ran ++ rest.ran }

range_append : (i j k : ℕ) → range i j ++ range (i + j) k ≡ range i (j + k)
range_append i zero k =
    let e : i + 0 ≡ i = omega arith in
    let f : k ≡ 0 + k = omega arith in ap (λ n. range n k) e ∙ ap (range i) f
range_append i (suc j) k =
    let e : i + suc j ≡ i + 1 + j = omega arith in
    let f : suc (j + k) ≡ suc j + k = omega arith in
    ap (◌∷◌ i) (ap (λ n. range (i + 1) j ++ range n k) e ∙ range_append (i + 1) j k)
    ∙ ap (range i) f

RanAll : ℕ → ℕ → Ran → Type 0
RanAll i total r = (r.finished ≡ true) × RanFrom i total r

all-if :
    (i total : ℕ) (b : Bool) (x y : Ran)
    → (b ≡ true → RanAll i total x)
    → (b ≡ false → RanAll i total y)
    → RanAll i total (if b then x else y)
all-if i total true x y f g = f refl
all-if i total false x y f g = g refl

-- A flow whose ploys leave the index alone, started without an error at an index within the flow
-- and run again after each suspension: it finishes within more runs than ploys are left, the
-- ploys that ran are consecutive from the start index on, each once, and without an error they
-- reach the end.
pub run_all-RanFrom :
    (fuel : ℕ) (ploys : List Ploy) (ctx : FlowCtx)
    → All KeepsIndex ploys
    → is_empty ctx.err_msg ≡ true
    → ctx.next_index ≤ length ploys
    → length ploys < ctx.next_index + fuel
    → ((run_all fuel ploys ctx).finished ≡ true)
      × RanFrom ctx.next_index (length ploys) (run_all fuel ploys ctx)
unfolding run_all RanAll
run_all-RanFrom zero ploys ctx v e l f = absurd (omega arith)
run_all-RanFrom (suc fuel) ploys ctx v e l f =
    let i = ctx.next_index in
    let first = run ploys ctx in
    let a = run-RanFrom ploys ctx v e l in
    all-if i (length ploys) first.finished _ _ (λ b. (b, a))
      λ b.
        let (x, y, z) = a.suspended b in
        let (d, r) =
          run_all-RanFrom fuel ploys first.ctx v x (omega (arith, a.next, z))
            (omega (arith, a.next, f, y)) in
        (
          d,
          record {
            count = a.count + r.count;
            order =
                ap (λ (q : List ℕ). q ++ (run_all fuel ploys first.ctx).ran) a.order
                ∙ ap (λ (q : List ℕ). range i a.count ++ q)
                    (r.order ∙ ap (λ n. range n r.count) a.next)
                ∙ range_append i a.count r.count;
            next = omega (arith, r.next, a.next);
            suspended = λ g. absurd (ground (arith, d, g));
            ended = λ g h. let w = r.ended g h in omega (arith, w, a.next);
          },
        )
