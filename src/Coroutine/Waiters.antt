-- ===== src/Coroutine/Waiters.antt =====
-- CoroutineWaiter and CoConditionVariable of src/coroutine/coroutine_mutex.h. Resuming a coroutine is an
-- output: the coroutines that are resumed, in order.
use sheep_cpp.Base.{
  ℕ, suc, ◌≡◌, ◌⊎◌, refl, ap, inl, inr, Bool, true, false, Option, none, some, List, [], ◌∷◌, ◌++◌,
  if◌then◌else◌, length, All, Bool-cases, arith,
}

pub record Waiter : Type 0 where
  -- whether it was made in a coroutine: `sched_` is not nullptr
  pub sched : Bool
  pub info : ℕ
  pub is_canceled : Bool

pub data Wait : Type 0 where
  -- std::runtime_error
  throws : Wait
  -- it is suspended, or sleeps for the time given
  suspended : Wait
  sleeping : ℕ → Wait

-- CoroutineWaiter::wakeup
unfoldable pub wakeup : Waiter → List ℕ
wakeup w = if w.sched then w.info ∷ [] else []

-- CoroutineWaiter::wait up to the suspension; `none` stands for -1 milliseconds.
unfoldable pub wait_start : Waiter → Option ℕ → Wait
wait_start w none = if w.sched then suspended else throws
wait_start w (some ms) = if w.sched then sleeping ms else throws

-- The end of CoroutineWaiter::wait: the waiter on the stack is marked.
unfoldable pub wait_end : Waiter → Waiter
wait_end w = record w { is_canceled = true }

pub record Notified : Type 0 where
  pub resumed : List ℕ
  pub count : ℕ
  pub left : List Waiter

-- One more waiter woken before the others.
unfoldable pub woken_too : Waiter → Notified → Notified
unfolding wakeup
woken_too w rest = record rest { resumed = wakeup w ++ rest.resumed; count = suc rest.count }

-- notify_nolock, of CoConditionVariable and of CoMutex
unfoldable pub notify_nolock : Bool → List Waiter → Notified
unfolding wakeup woken_too
notify_nolock is_all [] = record { resumed = []; count = 0; left = [] }
notify_nolock is_all (w ∷ ws) =
    let rest = notify_nolock is_all ws in
    if w.is_canceled
    then rest
    else if is_all
    then woken_too w rest
    else record { resumed = wakeup w; count = 1; left = ws }

-- CoConditionVariable::wait: a copy of the waiter is queued.
unfoldable pub cv_wait : Waiter → List Waiter → List Waiter
cv_wait w waiters = waiters ++ w ∷ []

unfoldable pub notify_one : List Waiter → Notified
unfolding notify_nolock
notify_one waiters = notify_nolock false waiters

unfoldable pub notify_all : List Waiter → Notified
unfolding notify_nolock
notify_all waiters = notify_nolock true waiters

-- The waiters that a notification sees.
abbrev pub active : List Waiter → List Waiter
active [] = []
active (w ∷ ws) = let rest = active ws in if w.is_canceled then rest else w ∷ rest

abbrev pub wake_list : List Waiter → List ℕ
wake_list [] = []
wake_list (w ∷ ws) = wakeup w ++ wake_list ws

-- notify_all resumes the coroutine of every waiter that is not canceled and was made in a
-- coroutine, in the order of the queue, counts the waiters that are not canceled, and empties the
-- queue.
notify_all_lem :
    (ws : List Waiter)
    → notify_all ws
      ≡ record { resumed = wake_list (active ws); count = length (active ws); left = [] }
unfolding notify_all
notify_all_lem [] = refl
notify_all_lem (w ∷ ws) =
    let ih = notify_all_lem ws in
    elim (Bool-cases w.is_canceled) [ inl e ↦ ground (arith, ih) | inr e ↦ ground (arith, ih) ]

abbrev pub IsCanceled : Waiter → Type 0
IsCanceled w = w.is_canceled ≡ true

-- notify_one drops the canceled waiters in front; it wakes the first other one and reports it, or
-- reports that there was none.
abbrev pub NotifiesOne : List Waiter → Notified → Type 0
NotifiesOne ws r =
    (All IsCanceled ws × (r ≡ record { resumed = []; count = 0; left = [] }))
    ⊎ ((gone : List Waiter) × (w : Waiter) × (left : List Waiter) × (ws ≡ gone ++ w ∷ left)
        × All IsCanceled gone
        × (w.is_canceled ≡ false)
        × (r ≡ record { resumed = wakeup w; count = 1; left = left }))

-- notify_one drops the canceled waiters in front; it wakes the first other one, counts one and
-- leaves those behind it; if there is none, it counts zero and leaves nothing.
notify_one-NotifiesOne : (ws : List Waiter) → NotifiesOne ws (notify_one ws)
unfolding notify_one
notify_one-NotifiesOne [] = inl (tt, refl)
notify_one-NotifiesOne (w ∷ ws) = elim (Bool-cases w.is_canceled) [
  | inl e ↦ elim (notify_one-NotifiesOne ws) [
    | inl (a, f) ↦ inl ((e, a), ground (arith, f))
    | inr (gone, v, left, f, a, g, h) ↦
        inr (w ∷ gone, v, left, ap (◌∷◌ w) f, (e, a), g, ground (arith, h))
  ]
  | inr e ↦ inr ([], w, ws, refl, tt, e, ground arith)
]
