-- ===== src/Net/Epoller.antt =====
-- src/net/common/poller/epoller.cpp. What epoll_wait writes is an input; the calls of epoll_ctl are
-- outputs. Weak pointers are ids, looked up in the store. File descriptors are taken to be below
-- MaxSize_, the length of `events_`.
pub mod Wait
use sheep_cpp.Base.{
  ℕ, zero, suc, ◌+◌, Bool, true, false, not, ◌&&◌, ◌||◌, Option, none, some, List, [], ◌∷◌, ◌++◌,
  if◌then◌else◌, ◌==◌, length, drop, ErrMsg, empty, says,
}
use sheep_cpp.Net.Event.{Event, Store, Callback, set_read_able, set_write_able, put_event}

-- A struct epoll_event: the fd, and the bits EPOLLIN, and EPOLLOUT, EPOLLERR or EPOLLHUP.
pub record PollEvent : Type 0 where
  pub fd : ℕ
  pub is_in : Bool
  pub is_out_or_err : Bool

pub record Epoller : Type 0 where
  -- what the kernel wrote last
  pub poll_events : List PollEvent
  -- events_, by fd: the id of the event
  pub events : ℕ → Option ℕ

pub data CtlOp : Type 0 where
  ctl_add ctl_mod ctl_del : CtlOp

pub record Ctl : Type 0 where
  pub op : CtlOp
  pub fd : ℕ
  pub wants_in : Bool
  pub wants_out : Bool

-- events_[fd].lock()
unfoldable pub lock_fd : Epoller → Store → ℕ → Option Event
lock_fd p store fd = elim (p.events fd) [ none ↦ none | some id ↦ store id ]

unfoldable pub update_event : Store → Event → Epoller → Epoller × Ctl
unfolding lock_fd
update_event store e p =
    let ctl : CtlOp → Ctl =
      λ op. record { op = op; fd = e.fd; wants_in = e.read_notify; wants_out = e.write_notify } in
    elim (lock_fd p store e.fd) [
      | none ↦ (record p { events = λ k. if k == e.fd then some e.id else p.events k }, ctl ctl_add)
      | some old ↦ (p, ctl ctl_mod)
    ]

unfoldable pub remove_event : Event → Epoller → Epoller × Ctl
remove_event e p = (
  record p { events = λ k. if k == e.fd then none else p.events k },
  record { op = ctl_del; fd = e.fd; wants_in = false; wants_out = false },
)

-- The loop of Poll from `i` on: `none` is the fatal "can't access here".
unfoldable pub poll_loop : ℕ → ℕ → List PollEvent → Epoller → Store → Option (List ℕ × Store)
unfolding lock_fd set_read_able set_write_able
poll_loop num i [] p store = some ([], store)
poll_loop num i (w ∷ ws) p store =
    if i == num then some ([], store) else elim (lock_fd p store w.fd) [
      | none ↦ poll_loop num i ws p store
      | some e ↦
          let marked : Option Event =
            if w.is_in
            then some (set_read_able e)
            else if w.is_out_or_err
            then some (set_write_able e)
            else none in
          elim marked [
            | none ↦ none
            | some e' ↦ elim (poll_loop num (i + 1) ws p (put_event store e.id e')) [
              | none ↦ none
              | some (ids, store') ↦ some (e.id ∷ ids, store')
            ]
          ]
    ]

pub data WaitResult : Type 0 where
  wait_failed : WaitResult
  ready : List PollEvent → WaitResult

-- The ids of the events, the error message, and what became of the poller and of the events.
pub record Polled : Type 0 where
  pub poller : Epoller
  pub ids : List ℕ
  pub store : Store
  pub err_msg : ErrMsg

-- The kernel writes over the front of the array.
unfoldable pub poll : WaitResult → Epoller → Store → Option Polled
unfolding poll_loop
poll wait_failed p store =
    some (record { poller = p; ids = []; store = store; err_msg = says "epoll_wait returns -1" })
poll (ready ws) p store =
    let p' = record p { poll_events = ws ++ drop (length ws) p.poll_events } in
    elim (poll_loop (length ws) 0 p'.poll_events p' store) [
      | none ↦ none
      | some (ids, store') ↦
          some (record { poller = p'; ids = ids; store = store'; err_msg = empty })
    ]
