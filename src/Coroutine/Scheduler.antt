-- ===== src/Coroutine/Scheduler.antt =====
-- CoroutineSchedulerImp of src/coroutine/coroutine_scheduler.cpp. Coroutine `i` of the array `coros_` has
-- address `i`; the four list heads have the addresses behind the array. What a coroutine does while
-- it runs is a turn, chosen by a script that sees the whole state; the clock is an input.
pub mod Lists
pub mod Turns
pub mod Run
pub mod Sleep
pub mod Init
pub mod Tests
use sheep_cpp.Base.{
  ℕ, zero, suc, ◌+◌, Bool, true, false, Option, none, some, List, [], ◌∷◌, ◌++◌, if◌then◌else◌,
  ◌==◌, ltb, leb, ◌||◌, ◌&&◌, set_at,
}
use sheep_cpp.Util.IntrusiveList.{Mem, init, insert, remove, front, get_all_nodes}

pub record Scheduler : Type 0 where
  pub coro_num : ℕ
  pub mem : Mem
  -- func_ of each CoroutineInfo
  pub tasks : ℕ → Option ℕ
  -- ctx_ of each is a point of its function: set by registerFunc, and gone when the function is over
  pub ready : ℕ → Bool
  -- earliest first
  pub sleep_queue : List (ℕ × ℕ)
  pub resume_queue : List ℕ
  pub is_running : Bool
  -- CoroutineScheduler::currentCoro()
  pub current : ℕ

infixl 5 ◌>>=◌
abbrev pub ◌>>=◌ {ℓ κ} : {A : Type ℓ} {B : Type κ} → Option A → (A → Option B) → Option B
none >>= f = none
some a >>= f = f a

abbrev pub free_head : ℕ → ℕ
free_head n = n

abbrev pub suspend_head : ℕ → ℕ
suspend_head n = n + 1

abbrev pub resume_head : ℕ → ℕ
resume_head n = n + 2

abbrev pub yield_head : ℕ → ℕ
yield_head n = n + 3

-- moveToSuspend, moveToResume, moveToYield: take `info` off its list, put it behind `head`.
unfoldable pub move_to : ℕ → ℕ → Scheduler → Option Scheduler
move_to head info s = do
  m ← remove info s.mem
  m' ← insert head info m
  some (record s { mem = m' })

-- The loop of the constructor, over the addresses from `i` on.
pub fill : ℕ → ℕ → ℕ → Mem → Option Mem
fill zero i head m = some m
fill (suc left) i head m = do m' ← insert head i m; fill left (i + 1) head m'

null_mem : Mem
null_mem = record { prev = λ j. none; next = λ j. none }

unfoldable pub make_scheduler : ℕ → Option Scheduler
unfolding fill null_mem
make_scheduler n = do
  filled ← fill n 0 (free_head n) (init (free_head n) null_mem)
  let m = init (yield_head n) (init (resume_head n) (init (suspend_head n) filled))
  some (record {
    coro_num = n;
    mem = m;
    tasks = λ j. none;
    ready = λ j. false;
    sleep_queue = [];
    resume_queue = [];
    is_running = true;
    current = n;
  })

-- CoroutineInfo::registerFunc, without the stack that it makes
unfoldable pub register_func : ℕ → ℕ → Scheduler → Scheduler
register_func info func s = record s {
  tasks = λ j. if j == info then some func else s.tasks j;
  ready = set_at info true s.ready;
}

unfoldable pub add_coroutine : ℕ → Scheduler → Option (Scheduler × Bool)
unfolding register_func move_to
add_coroutine func s = elim (front (free_head s.coro_num) s.mem) [
  | none ↦ some (s, false)
  | some info ↦ do
    s' ← move_to (yield_head s.coro_num) info (register_func info func s)
    some (s', true)
]

-- The end of initContext: the `endFunc_` that addCoroutine registers, and the jump back, behind
-- which assert(false) stands.
unfoldable pub end_func : ℕ → Scheduler → Option Scheduler
unfolding move_to
end_func info s =
    move_to (free_head s.coro_num) info (record s { ready = set_at info false s.ready })

-- yield and suspend up to the switch back
unfoldable pub yield : Scheduler → Option Scheduler
unfolding move_to
yield s = move_to (yield_head s.coro_num) s.current s

unfoldable pub suspend : Scheduler → Option Scheduler
unfolding move_to
suspend s = move_to (suspend_head s.coro_num) s.current s

unfoldable pub resume : ℕ → Scheduler → Scheduler
resume coro s = record s { resume_queue = s.resume_queue ++ coro ∷ [] }

-- std::greater on the pairs makes the least pair the top.
unfoldable pub before : ℕ × ℕ → ℕ × ℕ → Bool
before (t, c) (u, d) = ltb t u || (t == u && ltb c d)

unfoldable pub push_sleep : ℕ × ℕ → List (ℕ × ℕ) → List (ℕ × ℕ)
unfolding before
push_sleep p [] = p ∷ []
push_sleep p (q ∷ qs) = let rest = push_sleep p qs in if before q p then q ∷ rest else p ∷ q ∷ qs

unfoldable pub sleep : ℕ → ℕ → Scheduler → Option Scheduler
unfolding suspend push_sleep
sleep now ms s = suspend (record s { sleep_queue = push_sleep (now + ms, s.current) s.sleep_queue })

-- The first loop of wakeUpSleep: who is due, and who sleeps on.
unfoldable pub pop_due : ℕ → List (ℕ × ℕ) → List ℕ × List (ℕ × ℕ)
pop_due now [] = ([], [])
pop_due now ((t, c) ∷ q) =
    let (due, rest) = pop_due now q in if ltb now t then ([], (t, c) ∷ q) else (c ∷ due, rest)

pub resume_all : List ℕ → Scheduler → Scheduler
unfolding resume
resume_all [] s = s
resume_all (c ∷ cs) s = resume_all cs (resume c s)

unfoldable pub wake_up_sleep : ℕ → Scheduler → Scheduler
unfolding pop_due resume_all
wake_up_sleep now s =
    let (due, rest) = pop_due now s.sleep_queue in resume_all due (record s { sleep_queue = rest })

-- The loop over resumeQueue_ in `run`.
pub drain : List ℕ → Scheduler → Option Scheduler
unfolding move_to
drain [] s = some (record s { resume_queue = [] })
drain (c ∷ cs) s = do s' ← move_to (resume_head s.coro_num) c s; drain cs s'

-- What code outside calls on the scheduler, from a coroutine, an event or another thread.
pub data Call : Type 0 where
  resumes : ℕ → Call
  adds : ℕ → Call
  stops : Call

-- How a coroutine gives the thread back.
pub data Exit : Type 0 where
  yields : Exit
  suspends : Exit
  sleeps : ℕ → Exit
  finishes : Exit

pub record Turn : Type 0 where
  pub calls : List Call
  pub exit : Exit
  pub now : ℕ

unfoldable pub call : Call → Scheduler → Option Scheduler
unfolding resume add_coroutine
call (resumes c) s = some (resume c s)
call (adds f) s = do r ← add_coroutine f s; some r.0
call stops s = some (record s { is_running = false })

unfoldable pub call_all : List Call → Scheduler → Option Scheduler
unfolding call
call_all [] s = some s
call_all (c ∷ cs) s = do s' ← call c s; call_all cs s'

unfoldable pub leave : Exit → ℕ → Scheduler → Option Scheduler
unfolding yield suspend sleep end_func
leave yields now s = yield s
leave suspends now s = suspend s
leave (sleeps ms) now s = sleep now ms s
leave finishes now s = end_func s.current s

-- How turns end: the scheduler goes on, or the program ends with a switch to a coroutine that has no
-- point to go on from, since its function is over (assert(false)) or it never had one (no ctx_).
pub data Ran : Type 0 where
  goes : Scheduler → Ran
  dead : ℕ → Scheduler → Ran

abbrev pub go_on : (Scheduler → Option Ran) → Ran → Option Ran
go_on f (goes s) = f s
go_on f (dead coro s) = some (dead coro s)

-- CoroutineInfo::switchTo, up to the coroutine's switch back.
unfoldable pub switch_to : (Scheduler → Turn) → ℕ → Scheduler → Option Ran
unfolding call_all leave
switch_to script coro s =
    let here = record s { current = coro } in
    let turn = script here in
    if s.ready coro
    then (call_all turn.calls here >>= leave turn.exit turn.now >>= λ s'. some (goes s'))
    else some (dead coro here)

unfoldable pub switch_to_all : (Scheduler → Turn) → List ℕ → Scheduler → Option Ran
unfolding switch_to
switch_to_all script [] s = some (goes s)
switch_to_all script (c ∷ cs) s = switch_to script c s >>= go_on (switch_to_all script cs)

abbrev pub nodes_behind : ℕ → Scheduler → Option (List ℕ)
nodes_behind head s = get_all_nodes (s.coro_num + 1) head s.mem

-- The two loops of a round over the coroutines of a list, behind `head`.
unfoldable pub switch_list : (Scheduler → Turn) → (ℕ → ℕ) → Scheduler → Option Ran
unfolding switch_to_all
switch_list script head s =
    nodes_behind (head s.coro_num) s >>= λ coros. switch_to_all script coros s

-- One round of the loop of `run`: `events` is what loop_->runOnce() calls, if it is run.
unfoldable pub run_once : (Scheduler → Turn) → List Call → ℕ → Scheduler → Option Ran
unfolding call_all wake_up_sleep drain switch_list
run_once script events now s = do
  s1 ← call_all events s
  let s2 = wake_up_sleep now s1
  s3 ← drain s2.resume_queue s2
  r ← switch_list script resume_head s3
  go_on (switch_list script yield_head) r

unfoldable pub run : (Scheduler → Turn) → List (List Call × ℕ) → Scheduler → Option Ran
unfolding run_once
run script [] s = some (goes s)
run script ((events, now) ∷ rounds) s =
    if s.is_running
    then run_once script events now s >>= go_on (run script rounds)
    else some (goes s)
