-- ===== src/Flow/Tests.antt =====
-- The theorem on src/extends/small_flow/small_flow.h at a concrete flow.
use sheep_cpp.Base.{◌≡◌, refl, true, false, List, [], ◌∷◌, length, empty, arith}
use sheep_cpp.Flow.{FlowCtx, Ploy, run}
use sheep_cpp.Flow.Order.{RanFrom, run_all, run_all-RanFrom}

-- The second of three ploys suspends the flow.
abbrev goes_on : Ploy
goes_on ctx = ctx

abbrev stops : Ploy
stops ctx = record ctx { suspend = true }

abbrev ploys : List Ploy
ploys = goes_on ∷ stops ∷ goes_on ∷ []

abbrev start : FlowCtx
start = record { err_msg = empty; next_index = 0; suspend = false }

all_run : (run_all 4 ploys start).ran ≡ 0 ∷ 1 ∷ 2 ∷ []
unfolding run_all run
all_run = refl

run_all-RanFrom_example :
    ((run_all 4 ploys start).finished ≡ true) × RanFrom 0 (length ploys) (run_all 4 ploys start)
run_all-RanFrom_example =
    run_all-RanFrom 4 ploys start (λ c. refl, (λ c. refl, (λ c. refl, tt))) refl (omega arith)
      (omega arith)
