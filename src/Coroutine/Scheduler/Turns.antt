-- ===== src/Coroutine/Scheduler/Turns.antt =====
-- What one turn of a coroutine in src/coroutine/coroutine_scheduler.cpp keeps.
use sheep_cpp.Base.{
  ℕ, ◌+◌, ◌<◌, ◌≡◌, ◌≢◌, refl, sym, subst, inl, inr, true, false, set_at, Option, some, List, [],
  ◌∷◌, All, All-append, arith, ltb, Bool-cases,
}
use sheep_cpp.Util.IntrusiveList.Rings.{moved}
use sheep_cpp.Coroutine.Scheduler.{
  Scheduler, Call, resumes, adds, stops, Exit, yields, suspends, sleeps, finishes, Turn, free_head,
  suspend_head, resume_head, yield_head, move_to, register_func, add_coroutine, yield, suspend,
  resume, resume_all, push_sleep, before, pop_due, sleep, end_func, wake_up_sleep, drain, call,
  call_all, leave, Ran, goes, dead, go_on, ◌>>=◌, switch_to, switch_to_all,
}
use sheep_cpp.Coroutine.Scheduler.Lists.{
  Wf, Apt, Joins, moved-Apt, At, Returns, Returns-bind, move_to-At, refit, add_coroutine-Added,
  moved-total,
}

-- What is called on a scheduler of `n` coroutines names coroutines of its array.
abbrev pub ValidCall : ℕ → Call → Type 0
ValidCall n (resumes c) = c < n
ValidCall n (adds f) = Unit
ValidCall n stops = Unit

abbrev pub ValidScript : ℕ → (Scheduler → Turn) → Type 0
ValidScript n script = (s : Scheduler) → All (ValidCall n) (script s).calls

-- After a call nothing that was ready is not.
abbrev pub Kept : ℕ → ℕ → Scheduler → Scheduler → Type 0
Kept n c s t = At n c t × ((x : ℕ) → s.ready x ≡ true → t.ready x ≡ true)

add_coroutine-At :
    {n c : ℕ} {s : Scheduler} (f : ℕ) → At n c s → Returns (λ r. Kept n c s r.0) (add_coroutine f s)
unfolding register_func
add_coroutine-At {n} {c} {s} f a = elim (add_coroutine-Added s a.wf f) [
  | inl (e, g) ↦ ((s, false), g, (a, λ x h. h))
  | inr (x, xs, m, e, g, r) ↦
      let t = register_func x f s in
      let others : (y : ℕ) → y ≢ x → Apt s.coro_num t.ready a.wf.lists y =
        λ y d. (λ i. ground (arith, d, (a.apt y).0 i), λ i. ground (arith, d, (a.apt y).1 i)) in
      let joins : Joins s.coro_num t.ready (yield_head s.coro_num) x =
        (λ i. ground arith, λ q. absurd (omega (arith, q))) in
      (
        (record t { mem = m }, true),
        g,
        (
          record {
            wf = record {
              lists = moved (yield_head s.coro_num) x a.wf.lists;
              rings = r;
              total = moved-total a.wf (yield_head s.coro_num) x (omega arith, omega arith);
              queued = a.wf.queued;
              sleepers = a.wf.sleepers;
            };
            size = a.size;
            running = a.running;
            apt = moved-Apt s.coro_num (yield_head s.coro_num) x t.ready a.wf.lists others joins;
          },
          λ y h. ground (arith, h),
        ),
      )
]

resume-At : {n c : ℕ} {s : Scheduler} (x : ℕ) → x < n → At n c s → At n c (resume x s)
unfolding resume
resume-At {n} {c} {s} x b a =
    refit a _ refl refl refl a.running
      (All-append (λ c. c < s.coro_num) s.resume_queue (x ∷ []) a.wf.queued (omega arith, tt))
      a.wf.sleepers

call-At :
    {n c : ℕ} {s : Scheduler} (k : Call)
    → ValidCall n k
    → At n c s
    → Returns (Kept n c s) (call k s)
unfolding call resume
call-At {n} {c} {s} (resumes x) v a = (resume x s, refl, (resume-At x v a, λ y h. h))
call-At (adds f) v a =
    Returns-bind (add_coroutine f _) (λ r. some r.0) (add_coroutine-At f a) (λ r b. (r.0, refl, b))
call-At {n} {c} {s} stops v a = (
  record s { is_running = false },
  refl,
  (refit a _ refl refl refl a.running a.wf.queued a.wf.sleepers, λ y h. h),
)

pub call_all-At :
    {n c : ℕ} {s : Scheduler} (ks : List Call)
    → All (ValidCall n) ks
    → At n c s
    → Returns (Kept n c s) (call_all ks s)
unfolding call_all
call_all-At {n} {c} {s} [] v a = (s, refl, (a, λ y h. h))
call_all-At {n} {c} {s} (k ∷ ks) v a =
    Returns-bind (call k s) (call_all ks) (call-At k v.0 a)
      (λ t b. let (u, e, (d, l)) = call_all-At ks v.1 b.0 in (u, e, (d, λ y h. l y (b.1 y h))))

pub push_sleep-All :
    (P : ℕ × ℕ → Type 0) (p : ℕ × ℕ) (qs : List (ℕ × ℕ)) → P p → All P qs → All P (push_sleep p qs)
unfolding push_sleep
push_sleep-All P p [] h k = (h, tt)
push_sleep-All P p (q ∷ qs) h k = elim (Bool-cases (before q p)) [
  | inl e ↦ rw e (k.0, push_sleep-All P p qs h k.1)
  | inr e ↦ rw e (h, k)
]

-- A coroutine is moved behind a head that is not the free one.
behind :
    {n c : ℕ} {s : Scheduler} (head : ℕ)
    → At n c s
    → s.ready s.current ≡ true
    → c < n
    → n < head
    → head < n + 4
    → Returns (At n c) (move_to head s.current s)
behind {n} {c} {s} head a r b l m =
    let (t, e, d) =
      move_to-At head s.current a.wf a.size a.running (λ y d. a.apt y)
        (λ i. r, λ q. absurd (omega (arith, q, l, a.size))) (omega (arith, l), omega (arith, m))
        (omega (arith, a.running, b)) in
    (t, e, d.0)

-- However the running coroutine gives the thread back, it stays on exactly one list.
leave-At :
    {n c : ℕ} {s : Scheduler} (e : Exit) (now : ℕ)
    → c < n
    → At n c s
    → s.ready s.current ≡ true
    → Returns (At n c) (leave e now s)
unfolding leave yield suspend sleep end_func
leave-At {n} {c} {s} yields now b a r =
    behind (yield_head s.coro_num) a r b (omega (arith, a.size)) (omega (arith, a.size))
leave-At {n} {c} {s} suspends now b a r =
    behind (suspend_head s.coro_num) a r b (omega (arith, a.size)) (omega (arith, a.size))
leave-At {n} {c} {s} (sleeps ms) now b a r =
    let t = record s { sleep_queue = push_sleep (now + ms, s.current) s.sleep_queue } in
    let a' : At n c t = refit a t refl refl refl a.running a.wf.queued (
      push_sleep-All (λ p. p.1 < s.coro_num) (now + ms, s.current) s.sleep_queue
        (rw (a.size, a.running) b) a.wf.sleepers) in
    behind (suspend_head s.coro_num) a' r b (omega (arith, a.size)) (omega (arith, a.size))
leave-At {n} {c} {s} finishes now b a r =
    let t = record s { ready = set_at s.current false s.ready } in
    let w : Wf t = record {
      lists = a.wf.lists;
      rings = a.wf.rings;
      total = a.wf.total;
      queued = a.wf.queued;
      sleepers = a.wf.sleepers;
    } in
    let others : (y : ℕ) → y ≢ s.current → Apt t.coro_num t.ready w.lists y =
      λ y d. (λ i. ground (arith, d, (a.apt y).0 i), λ i. ground (arith, d, (a.apt y).1 i)) in
    let joins : Joins t.coro_num t.ready (free_head s.coro_num) s.current = (
      λ i. elim i [ inl q ↦ absurd (omega (arith, q)) | inr q ↦ absurd (omega (arith, q)) ],
      λ q. ground arith,
    ) in
    let (u, e, d) =
      move_to-At (free_head s.coro_num) s.current w a.size a.running others joins
        (omega (arith, a.size), omega (arith, a.size)) (omega (arith, a.running, b)) in
    (u, e, d.0)

-- The coroutine that runs does not matter between turns.
abbrev pub Good : ℕ → Scheduler → Type 0
Good n s = At n s.current s

pub Good-of-At : {n c : ℕ} {s : Scheduler} → At n c s → Good n s
Good-of-At a = record { wf = a.wf; size = a.size; running = refl; apt = a.apt }

-- How a run ends: with the lists in order, also where the program ends at a coroutine that has no
-- point to go on from.
abbrev pub Ended : ℕ → Ran → Type 0
Ended n (goes s) = Good n s
Ended n (dead coro s) = Good n s × (s.ready coro ≡ false)

pub go_on-Ended :
    {n : ℕ} (f : Scheduler → Option Ran) (r : Ran)
    → Ended n r
    → ((s : Scheduler) → Good n s → Returns (Ended n) (f s))
    → Returns (Ended n) (go_on f r)
go_on-Ended f (goes s) a k = k s a
go_on-Ended f (dead coro s) a k = (dead coro s, refl, a)

switch_to-Ended :
    {n : ℕ} {s : Scheduler} (script : Scheduler → Turn) (c : ℕ)
    → ValidScript n script
    → c < n
    → Good n s
    → Returns (Ended n) (switch_to script c s)
unfolding switch_to
switch_to-Ended {n} {s} script c v b a =
    let here = record s { current = c } in
    let a0 : At n c here = refit a here refl refl refl refl a.wf.queued a.wf.sleepers in
    let turn = script here in
    elim (Bool-cases (s.ready c)) [
      | inl e ↦
          rw (switch_to, e)
            (Returns-bind (call_all turn.calls here >>= leave turn.exit turn.now)
              (λ t. some (goes t))
              (Returns-bind (call_all turn.calls here) (leave turn.exit turn.now)
                (call_all-At {c = c} turn.calls (v here) a0)
                (λ u d.
                  leave-At turn.exit turn.now b d.0
                    (subst (λ z. u.ready z ≡ true) (sym d.0.running) (d.1 c e))))
              (λ t d. (goes t, refl, Good-of-At d)))
      | inr e ↦ rw (switch_to, e) (dead c here, refl, (Good-of-At a0, e))
    ]

pub switch_to_all-Ended :
    {n : ℕ} {s : Scheduler} (script : Scheduler → Turn) (cs : List ℕ)
    → ValidScript n script
    → All (λ c. c < n) cs
    → Good n s
    → Returns (Ended n) (switch_to_all script cs s)
unfolding switch_to_all
switch_to_all-Ended {n} {s} script [] v b a = (goes s, refl, a)
switch_to_all-Ended {n} {s} script (c ∷ cs) v b a =
    Returns-bind (switch_to script c s) (go_on (switch_to_all script cs))
      (switch_to-Ended script c v b.0 a)
      (λ r d.
        go_on-Ended (switch_to_all script cs) r d (λ t g. switch_to_all-Ended script cs v b.1 g))

resume_all-At :
    {n c : ℕ} {s : Scheduler} (xs : List ℕ)
    → All (λ x. x < n) xs
    → At n c s
    → At n c (resume_all xs s)
unfolding resume_all
resume_all-At [] v a = a
resume_all-At (x ∷ xs) v a = resume_all-At xs v.1 (resume-At x v.0 a)

pop_due-All :
    (now n : ℕ) (q : List (ℕ × ℕ))
    → All (λ p. p.1 < n) q
    → All (λ x. x < n) (pop_due now q).0 × All (λ p. p.1 < n) (pop_due now q).1
unfolding pop_due
pop_due-All now n [] v = (tt, tt)
pop_due-All now n ((t, c) ∷ q) v = elim (Bool-cases (ltb now t)) [
  | inl e ↦ rw e (tt, v)
  | inr e ↦ let (d, r) = pop_due-All now n q v.1 in rw e ((v.0, d), r)
]

pub wake_up_sleep-Good : {n : ℕ} {s : Scheduler} (now : ℕ) → Good n s → Good n (wake_up_sleep now s)
unfolding wake_up_sleep
wake_up_sleep-Good {n} {s} now a =
    let (d, r) = pop_due-All now s.coro_num s.sleep_queue a.wf.sleepers in
    Good-of-At (
      resume_all-At (pop_due now s.sleep_queue).0
        (subst (λ k. All (λ x. x < k) (pop_due now s.sleep_queue).0) a.size d)
        (refit a (record s { sleep_queue = (pop_due now s.sleep_queue).1 }) refl refl refl refl
          a.wf.queued r))

pub drain-At :
    {n c : ℕ} {s : Scheduler} (xs : List ℕ)
    → All (λ x. x < n) xs
    → At n c s
    → Returns (At n c) (drain xs s)
unfolding drain
drain-At {n} {c} {s} [] v a =
    (record s { resume_queue = [] }, refl, refit a _ refl refl refl a.running tt a.wf.sleepers)
drain-At {n} {c} {s} (x ∷ xs) v a =
    Returns-bind (move_to (resume_head s.coro_num) x s) (drain xs)
      (move_to-At (resume_head s.coro_num) x a.wf a.size a.running (λ y d. a.apt y)
        (
          λ i. elim i [ inl q ↦ absurd (omega (arith, q)) | inr q ↦ absurd (omega (arith, q)) ],
          λ q. absurd (omega (arith, q)),
        )
        (omega (arith, a.size), omega (arith, a.size)) v.0)
      (λ t b. drain-At xs v.1 b.0)
