-- ===== src/Net/Socket.antt =====
-- src/net/common/tcp/socket.cpp: the system calls that it makes, and what it makes of their results. The
-- results are inputs.
use sheep_cpp.Base.{
  ℕ, ◌+◌, ◌-◌, ◌*◌, ◌/◌, ◌%◌, Bool, true, false, Option, none, some, List, [], ◌∷◌, ◌++◌, String,
  if◌then◌else◌, ◌==◌, ErrMsg, empty, is_empty, sys_failed, length,
}

-- The result of read(2) or write(2): the bytes that went over, or a negative result with its errno.
pub data IoResult : Type 0 where
  moved : List ℕ → IoResult
  failed : ℕ → IoResult

-- The int that Socket::Read and Socket::Write return; a failure is -1.
pub data Count : Type 0 where
  bytes : ℕ → Count
  minus_one : Count

-- errno.h of the platform
abbrev pub eagain : ℕ
eagain = 11

unfoldable pub read_count : IoResult → Count
read_count (moved bs) = bytes (length bs)
read_count (failed errno) = minus_one

-- The message of Socket::Read; Socket::Write has the same.
unfoldable pub io_err_msg : IoResult → ErrMsg
io_err_msg (moved bs) = empty
io_err_msg (failed errno) = if errno == eagain then empty else sys_failed "read" errno

-- The uint64_t that a Count becomes where it is passed on as one.
unfoldable pub as_u64 : Count → ℕ
as_u64 (bytes n) = n
as_u64 minus_one = 18446744073709551615

pub record Socket : Type 0 where
  pub fd : ℕ
  pub addr : String
  pub port : ℕ

pub data SysCall : Type 0 where
  bind connect : String → ℕ → SysCall
  listen : ℕ → SysCall
  -- getsockopt of SO_ERROR
  get_error : SysCall
  get_flags : SysCall
  set_flags : ℕ → SysCall
  -- setsockopt of TCP_NODELAY, SO_REUSEADDR, SO_LINGER, SO_RCVTIMEO
  tcp_nodelay : ℕ → SysCall
  reuse_addr : ℕ → SysCall
  linger : Bool → ℕ → SysCall
  receive_timeout : ℕ → ℕ → SysCall
  accept : SysCall
  get_sock_name : SysCall

-- A result that is not negative, or errno.
pub data SysResult : Type 0 where
  done : ℕ → SysResult
  error : ℕ → SysResult

abbrev pub Kernel : Type 0
Kernel = SysCall → SysResult

-- The calls that were made, in order, and the message.
abbrev pub Calls : Type 0
Calls = List SysCall × ErrMsg

-- The next operation, where the one before left no message.
infixl 5 ◌and_then◌
unfoldable pub ◌and_then◌ : Calls → Calls → Calls
(cs, e) and_then (ds, f) = if is_empty e then (cs ++ ds, f) else (cs, e)

abbrev pub einprogress : ℕ
einprogress = 115

-- O_NONBLOCK
abbrev pub o_nonblock : ℕ
o_nonblock = 2048

-- -1, where a message takes the result for the error number
abbrev pub bad_result : ℕ
bad_result = 4294967295

-- A call whose message has its result.
unfoldable pub call_result : Kernel → String → SysCall → Calls
call_result k name c =
    (c ∷ [], elim (k c) [ done n ↦ empty | error e ↦ sys_failed name bad_result ])

-- A call whose message has errno.
unfoldable pub call_errno : Kernel → String → SysCall → Calls
call_errno k name c = (c ∷ [], elim (k c) [ done n ↦ empty | error e ↦ sys_failed name e ])

unfoldable pub bind_to : Kernel → String → ℕ → Calls
unfolding call_result
bind_to k addr port = call_result k "bind" (bind addr port)

-- BackLog_
abbrev pub back_log : ℕ
back_log = 522

unfoldable pub start_listen : Kernel → Calls
unfolding call_result
start_listen k = call_result k "listen" (listen back_log)

unfoldable pub connect_to : Kernel → String → ℕ → Socket → Socket × Calls
connect_to k addr port s = (
  record s { addr = addr; port = port },
  (
    connect addr port ∷ [],
    elim (k (connect addr port)) [
      | done n ↦ empty
      | error e ↦ if e == einprogress then empty else sys_failed "connect" e
    ],
  ),
)

-- The call gives the error of the socket; where it fails, that is still 0.
unfoldable pub check_connect : Kernel → Socket → Calls
check_connect k s = (
  get_error ∷ [],
  elim (k get_error) [
    | done e ↦ if e == 0 then empty else sys_failed (said s) e
    | error e ↦ sys_failed (said s) bad_result
  ],
)
  where
    said : Socket → String
    said s = elim s.addr [ String.[] ↦ "getsockopt SO_ERROR" | _ ↦ "connected" ]

unfoldable pub or_nonblock : ℕ → ℕ
or_nonblock flags = if (flags / o_nonblock) % 2 == 1 then flags else flags + o_nonblock

unfoldable pub clear_nonblock : ℕ → ℕ
clear_nonblock flags = if (flags / o_nonblock) % 2 == 1 then flags - o_nonblock else flags

-- The second test asks the flags again, which are not negative.
unfoldable pub set_block_with_flag : Kernel → Bool → Calls
unfolding or_nonblock clear_nonblock
set_block_with_flag k block = elim (k get_flags) [
  | error e ↦ (get_flags ∷ [], sys_failed "fctnl F_GETFL" bad_result)
  | done flags ↦
      let flags' = if block then clear_nonblock flags else or_nonblock flags in
      (get_flags ∷ set_flags flags' ∷ [], empty)
]

unfoldable pub set_noblock : Kernel → Calls
unfolding set_block_with_flag
set_noblock k = set_block_with_flag k false

unfoldable pub set_block : Kernel → Calls
unfolding set_block_with_flag
set_block k = set_block_with_flag k true

unfoldable pub set_delay_with_flag : Kernel → Bool → Calls
unfolding call_errno
set_delay_with_flag k delay =
    call_errno k "setsockopt TCP_NODELAY" (tcp_nodelay (if delay then 1 else 0))

unfoldable pub set_no_delay : Kernel → Calls
unfolding set_delay_with_flag
set_no_delay k = set_delay_with_flag k false

unfoldable pub set_delay : Kernel → Calls
unfolding set_delay_with_flag
set_delay k = set_delay_with_flag k true

unfoldable pub set_reuse_addr : Kernel → Calls
unfolding call_result
set_reuse_addr k = call_result k "setsockopt SO_REUSEADDR" (reuse_addr 1)

unfoldable pub set_no_timewait : Kernel → Calls
unfolding call_result
set_no_timewait k = call_result k "setsockopt SO_LINGER" (linger true 0)

unfoldable pub set_rcv_timeout : Kernel → ℕ → Calls
unfolding call_errno
set_rcv_timeout k ms =
    call_errno k "setsockopt SO_LINGER" (receive_timeout (ms / 1000) (ms % 1000 * 1000))

-- An int that Accept returns; a failure is -1.
pub data Fd : Type 0 where
  fd : ℕ → Fd
  bad_fd : Fd

unfoldable pub accept_one : Kernel → Fd × ErrMsg
accept_one k = elim (k accept) [
  | done n ↦ (fd n, empty)
  | error e ↦ (bad_fd, if e == eagain then empty else sys_failed "accpet" e)
]

-- GetLocalIp: `text` is what inet_ntop makes of the address. The ip is set where no message is left.
unfoldable pub get_local_ip : Kernel → Option String → Calls × Option String
get_local_ip k text = elim (k get_sock_name) [
  | error e ↦ ((get_sock_name ∷ [], sys_failed "getsockname" bad_result), none)
  | done n ↦ elim text [
    | none ↦ ((get_sock_name ∷ [], sys_failed "inet_ntop" 1), none)
    | some ip ↦ ((get_sock_name ∷ [], empty), some ip)
  ]
]
