-- ===== src/Flow.antt =====
-- src/extends/small_flow/small_flow.h. A ploy is what its Run makes of the context; its trace and the
-- requests are left out. There are fewer ploys than an int counts.
pub mod Order
pub mod Tests
use sheep_cpp.Base.{
  ℕ, zero, suc, ◌+◌, Bool, true, false, not, List, [], ◌∷◌, ◌++◌, if◌then◌else◌, drop, ErrMsg,
  is_empty,
}

pub record FlowCtx : Type 0 where
  pub err_msg : ErrMsg
  pub next_index : ℕ
  pub suspend : Bool

abbrev pub Ploy : Type 0
Ploy = FlowCtx → FlowCtx

-- What one call of Run does: the context, the indices of the ploys that ran, and whether it called
-- event.Finish().
pub record Ran : Type 0 where
  pub ctx : FlowCtx
  pub ran : List ℕ
  pub finished : Bool

-- The loop, over the ploys from `i` on.
unfoldable pub loop : ℕ → List Ploy → FlowCtx → Ran
loop i [] ctx = record { ctx = ctx; ran = []; finished = true }
loop i (ploy ∷ ploys) ctx =
    let ctx' = ploy (record ctx { next_index = i + 1 }) in
    let rest = loop (i + 1) ploys ctx' in
    if not (is_empty ctx'.err_msg)
    then record { ctx = ctx'; ran = i ∷ []; finished = true }
    else if ctx'.suspend
    then record { ctx = ctx'; ran = i ∷ []; finished = false }
    else record rest { ran = i ∷ rest.ran }

-- FlowService::Run
unfoldable pub run : List Ploy → FlowCtx → Ran
unfolding loop
run ploys ctx =
    let ctx' = record ctx { suspend = false } in
    if not (is_empty ctx'.err_msg)
    then record { ctx = ctx'; ran = []; finished = true }
    else loop ctx'.next_index (drop ctx'.next_index ploys) ctx'
