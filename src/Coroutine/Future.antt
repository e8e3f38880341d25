-- ===== src/Coroutine/Future.antt =====
-- SharedState, Promise and Future of src/coroutine/coroutine_mutex.h. A section under `mtx_` is one step;
-- coroutines and threads wait in the order of a schedule. A is the type of the value, E that of the
-- exceptions.
pub mod Invariant
pub mod Delivery
use sheep_cpp.Base.{
  ℕ, Bool, true, false, Option, none, some, List, [], ◌∷◌, if◌then◌else◌, ◌==◌, set_at,
}
use sheep_cpp.Coroutine.Condition.{ConditionVariable, make_condition, wait, notify_everyone, forget}

-- How getValue ends: its own std::runtime_error, the exception of the promise, the value.
pub data Outcome (A E : Type 0) : Type 0 where
  not_ready : Outcome A E
  thrown : E → Outcome A E
  returned : A → Outcome A E

pub record SharedState (A E : Type 0) : Type 0 where
  pub cond : ConditionVariable
  pub eptr : Option E
  pub is_ready : Bool
  pub value : A

-- Where a coroutine or thread stands in Future::wait.
pub data Pc (A E : Type 0) : Type 0 where
  -- not called; in cond_.wait; back from it; the wait of the state has returned
  outside waiting woken waited : Pc A E
  -- the end of Future::wait
  done : Outcome A E → Pc A E

pub record World (A E : Type 0) : Type 0 where
  pub state : SharedState A E
  pub pc : ℕ → Pc A E

-- `cond_.notify_all()`: those that it wakes stand beside the state.
unfoldable pub set_exception : {A E : Type 0} → E → SharedState A E → SharedState A E × List ℕ
unfolding notify_everyone
set_exception e s =
    let (c, resumed) = notify_everyone s.cond in
    (record s { eptr = some e; is_ready = true; cond = c }, resumed)

unfoldable pub set_value : {A E : Type 0} → A → SharedState A E → SharedState A E × List ℕ
unfolding notify_everyone
set_value a s =
    let (c, resumed) = notify_everyone s.cond in
    (record s { value = a; is_ready = true; cond = c }, resumed)

unfoldable pub get_value : {A E : Type 0} → SharedState A E → Outcome A E
get_value s =
    if s.is_ready then elim s.eptr [ none ↦ returned s.value | some e ↦ thrown e ] else not_ready

-- The loop of SharedStateBase::wait up to the next suspension.
unfoldable pub wait_ready : {A E : Type 0} → Bool → ℕ → World A E → World A E
unfolding wait
wait_ready is_coro p w =
    let s = w.state in
    if s.is_ready
    then record w { pc = set_at p waited w.pc }
    else record { state = record s { cond = wait is_coro p s.cond }; pc = set_at p waiting w.pc }

unfoldable pub wake : {A E : Type 0} → List ℕ → (ℕ → Pc A E) → ℕ → Pc A E
wake [] pc = pc
wake (p ∷ ps) pc = wake ps (set_at p woken pc)

pub data Move (A E : Type 0) : Type 0 where
  -- `p` goes on in Future::wait; its wait ends without a notification
  go spurious : ℕ → Move A E
  -- Promise::setValue, Promise::setException
  fulfil : A → Move A E
  fail : E → Move A E

unfoldable pub go_at : {A E : Type 0} → Pc A E → Bool → ℕ → World A E → World A E
unfolding wait_ready get_value
go_at outside is_coro p w = wait_ready is_coro p w
go_at waiting is_coro p w = w
go_at woken is_coro p w = wait_ready is_coro p w
go_at waited is_coro p w = record w { pc = set_at p (done (get_value w.state)) w.pc }
go_at (done o) is_coro p w = w

-- Only a thread wakes up by itself.
unfoldable pub spurious_at : {A E : Type 0} → Pc A E → Bool → ℕ → World A E → World A E
unfolding forget
spurious_at waiting false p w = record {
  state = record w.state { cond = forget p w.state.cond };
  pc = set_at p woken w.pc;
}
spurious_at _ _ p w = w

unfoldable pub after_set : {A E : Type 0} → SharedState A E × List ℕ → World A E → World A E
unfolding wake
after_set (s, resumed) w = record { state = s; pc = wake resumed w.pc }

unfoldable pub step : {A E : Type 0} → (ℕ → Bool) → Move A E → World A E → World A E
unfolding go_at spurious_at after_set set_value set_exception
step is_coro (go p) w = go_at (w.pc p) (is_coro p) p w
step is_coro (spurious p) w = spurious_at (w.pc p) (is_coro p) p w
step is_coro (fulfil a) w = after_set (set_value a w.state) w
step is_coro (fail e) w = after_set (set_exception e w.state) w

unfoldable pub run : {A E : Type 0} → (ℕ → Bool) → List (Move A E) → World A E → World A E
unfolding step
run is_coro [] w = w
run is_coro (m ∷ ms) w = run is_coro ms (step is_coro m w)

-- `init` is what `value_` holds before setValue.
unfoldable pub start : {A E : Type 0} → A → World A E
unfolding make_condition
start init = record {
  state = record { cond = make_condition; eptr = none; is_ready = false; value = init };
  pc = λ p. outside;
}
