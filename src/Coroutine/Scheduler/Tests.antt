-- ===== src/Coroutine/Scheduler/Tests.antt =====
-- Runs of src/coroutine/coroutine_scheduler.cpp at concrete inputs, and the theorems at such inputs.
use sheep_cpp.Base.{
  ℕ, ◌≡◌, ◌+◌, refl, inl, inr, Bool-cases, true, false, some, none, Option, List, [], ◌∷◌,
  if◌then◌else◌, ◌==◌, arith, map, ◌++◌, All, ◌≤◌, ◌<◌,
}
use sheep_cpp.Util.IntrusiveList.{init, insert, remove, front, get_all_nodes}
use sheep_cpp.Coroutine.Scheduler.{
  Scheduler, Call, resumes, adds, Turn, yields, suspends, ◌>>=◌, goes, dead, make_scheduler, run,
  nodes_behind, wake_up_sleep,
}
use sheep_cpp.Coroutine.Scheduler.Lists.{Returns}
use sheep_cpp.Coroutine.Scheduler.Turns.{Ended, ValidScript}
use sheep_cpp.Coroutine.Scheduler.Init.{run-make_scheduler}
use sheep_cpp.Coroutine.Scheduler.Sleep.{wake_up_sleep_lem}

-- Coroutine 2 suspends; the others yield.
abbrev script : Scheduler → Turn
script s = record {
  calls = if s.current == 1 then resumes 2 ∷ [] else [];
  exit = if s.current == 2 then suspends else yields;
  now = 5;
}

abbrev rounds : List (List Call × ℕ)
rounds = (adds 7 ∷ adds 8 ∷ [], 1) ∷ ([], 2) ∷ []

abbrev all_lists : Scheduler → List (Option (List ℕ))
all_lists s = map (λ h. nodes_behind (s.coro_num + h) s) (0 ∷ 1 ∷ 2 ∷ 3 ∷ [])

two_rounds :
    (make_scheduler 3 >>= run script rounds >>= λ r. elim r [
      | goes s ↦ some (all_lists s)
      | dead c s ↦ none
    ])
    ≡ some (some (0 ∷ []) ∷ some (2 ∷ []) ∷ some [] ∷ some (1 ∷ []) ∷ [])
unfolding make_scheduler run get_all_nodes insert remove front init
two_rounds = refl

script_valid : ValidScript 3 script
script_valid s = elim (Bool-cases (s.current == 1)) [
  | inl e ↦ rw e (omega arith, tt)
  | inr e ↦ rw e tt
]

run-make_scheduler_example : Returns (Ended 3) (make_scheduler 3 >>= run script rounds)
run-make_scheduler_example = run-make_scheduler 3 script rounds script_valid (omega arith)

abbrev dozing : Scheduler
dozing = record {
  coro_num = 3;
  mem = record { prev = λ j. none; next = λ j. none };
  tasks = λ j. none;
  ready = λ j. false;
  sleep_queue = (5, 1) ∷ (9, 0) ∷ [];
  resume_queue = 2 ∷ [];
  is_running = true;
  current = 0;
}

wake_up_sleep_example :
    (due : List (ℕ × ℕ)) × (later : List (ℕ × ℕ)) × (dozing.sleep_queue ≡ due ++ later)
    × All (λ p. p.0 ≤ 7) due
    × All (λ p. 7 < p.0) later
    × (wake_up_sleep 7 dozing ≡ record dozing {
      sleep_queue = later;
      resume_queue = dozing.resume_queue ++ map (λ p. p.1) due;
    })
wake_up_sleep_example = wake_up_sleep_lem 7 dozing ((inl (omega arith), tt), (tt, tt))
