-- ===== src/Coroutine/Scheduler/Run.antt =====
-- The rounds of src/coroutine/coroutine_scheduler.cpp.
use sheep_cpp.Base.{
  ℕ, ◌+◌, ◌<◌, ◌≡◌, refl, subst, some, List, [], ◌∷◌, All, All-of-In, length-le_of_Distinct, arith,
}
use sheep_cpp.Util.IntrusiveList.Walk.{get_all_nodes-Seg}
use sheep_cpp.Util.IntrusiveList.Rings.{IsHead, Distinct-ring}
use sheep_cpp.Coroutine.Scheduler.{
  Scheduler, Call, Turn, resume_head, yield_head, wake_up_sleep, drain, call_all, goes, go_on,
  switch_list, switch_to_all, nodes_behind, run_once, run,
}
use sheep_cpp.Coroutine.Scheduler.Lists.{At, Returns, Returns-bind, Returns-if}
use sheep_cpp.Coroutine.Scheduler.Turns.{
  ValidCall, ValidScript, Good, call_all-At, Good-of-At, Ended, go_on-Ended, switch_to_all-Ended,
  wake_up_sleep-Good, drain-At,
}

-- The walk over one of the four lists ends and gives what hangs on it, all of it in the array.
pub nodes_behind-lists :
    {n : ℕ} {s : Scheduler} (head : ℕ) (a : Good n s)
    → IsHead n (n + 4) head
    → (nodes_behind head s ≡ some (a.wf.lists head)) × All (λ x. x < n) (a.wf.lists head)
nodes_behind-lists {n} {s} head a i =
    let j : IsHead s.coro_num (s.coro_num + 4) head = (omega arith, omega arith) in
    (
      get_all_nodes-Seg (s.coro_num + 1) s.mem head (a.wf.lists head)
          (omega (
            arith,
            length-le_of_Distinct s.coro_num (a.wf.lists head) (a.wf.rings.distinct head j)
                (λ x k. a.wf.rings.nodes head x j k),
          ))
          (Distinct-ring a.wf.rings head j) (a.wf.rings.seg head j),
      All-of-In (λ x. x < n) (a.wf.lists head)
          (λ x k. let b = a.wf.rings.nodes head x j k in omega arith),
    )

nodes_behind-Good :
    {n c : ℕ} {s : Scheduler} (head : ℕ)
    → At n c s
    → IsHead n (n + 4) head
    → Returns (λ xs. All (λ x. x < n) xs) (nodes_behind head s)
nodes_behind-Good head a i = let (e, v) = nodes_behind-lists head (Good-of-At a) i in (_, e, v)

switch_list-Ended :
    {n c : ℕ} {s : Scheduler} (script : Scheduler → Turn) (head : ℕ → ℕ)
    → ValidScript n script
    → At n c s
    → IsHead n (n + 4) (head s.coro_num)
    → Returns (Ended n) (switch_list script head s)
unfolding switch_list
switch_list-Ended {n} {c} {s} script head v a i =
    Returns-bind (nodes_behind (head s.coro_num) s) (λ xs. switch_to_all script xs s)
      (nodes_behind-Good (head s.coro_num) a i)
      (λ xs b. switch_to_all-Ended script xs v b (Good-of-At a))

-- One round, whatever the coroutines do: it follows no null pointer, and every coroutine is again
-- on exactly one list.
pub run_once-Ended :
    {n : ℕ} {s : Scheduler} (script : Scheduler → Turn) (events : List Call) (now : ℕ)
    → ValidScript n script
    → All (ValidCall n) events
    → Good n s
    → Returns (Ended n) (run_once script events now s)
unfolding run_once
run_once-Ended {n} {s} script events now v w a =
    Returns-bind (call_all events s) _ (call_all-At events w a) λ s1 a1.
      let s2 = wake_up_sleep now s1 in
      let a2 : Good n s2 = wake_up_sleep-Good now (Good-of-At a1.0) in
      Returns-bind (drain s2.resume_queue s2) _
        (drain-At s2.resume_queue
          (subst (λ k. All (λ x. x < k) s2.resume_queue) a2.size a2.wf.queued) a2)
        λ s3 a3.
          Returns-bind (switch_list script resume_head s3) (go_on (switch_list script yield_head))
            (switch_list-Ended script resume_head v a3 (omega arith, omega arith))
            λ r b.
              go_on-Ended (switch_list script yield_head) r b
                (λ s4 a4. switch_list-Ended script yield_head v a4 (omega arith, omega arith))

abbrev pub ValidRound : ℕ → List Call × ℕ → Type 0
ValidRound n r = All (ValidCall n) r.0

-- So after any number of rounds, until the scheduler is stopped.
pub run-Ended :
    {n : ℕ} {s : Scheduler} (script : Scheduler → Turn) (rounds : List (List Call × ℕ))
    → ValidScript n script
    → All (ValidRound n) rounds
    → Good n s
    → Returns (Ended n) (run script rounds s)
unfolding run
run-Ended {n} {s} script [] v w a = (goes s, refl, a)
run-Ended {n} {s} script ((events, now) ∷ rounds) v w a =
    Returns-if s.is_running
      (Returns-bind (run_once script events now s) (go_on (run script rounds))
        (run_once-Ended script events now v w.0 a)
        (λ r b. go_on-Ended (run script rounds) r b (λ t g. run-Ended script rounds v w.1 g)))
      (goes s, refl, a)
