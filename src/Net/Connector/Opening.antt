-- ===== src/Net/Connector/Opening.antt =====
-- What Connector::Connect of src/net/client/connector.cpp and its system calls make of the kernel's answers.
use sheep_cpp.Base.{
  ℕ, ◌≡◌, ◌⊎◌, refl, subst, inl, inr, Bool, true, false, ◌&&◌, Option, some, List, String, ◌==◌,
  ErrMsg, empty, says, sys_failed, is_empty, arith,
}
use sheep_cpp.Net.Connector.{Connector, Connecting, connect_socket, opened}
use sheep_cpp.Net.Socket.{
  Socket, SysCall, connect, get_error, get_flags, tcp_nodelay, SysResult, done, error, Kernel,
  Calls, einprogress, set_noblock, set_no_delay, connect_to, check_connect, call_errno,
  set_block_with_flag, set_delay_with_flag, ◌and_then◌,
}

abbrev pub succeeds : SysResult → Bool
succeeds (done n) = true
succeeds (error e) = false

abbrev pub under_way : SysResult → Bool
under_way (done n) = true
under_way (error e) = e == einprogress

abbrev pub no_error_left : SysResult → Bool
no_error_left (done n) = n == 0
no_error_left (error e) = false

-- What Connector::Connect asks of the kernel.
abbrev pub opens : Kernel → String → ℕ → Bool
opens k addr port =
    succeeds (k get_flags) && succeeds (k (tcp_nodelay 0)) && under_way (k (connect addr port))

SysResult-cases : (r : SysResult) → ((n : ℕ) × (r ≡ done n)) ⊎ ((e : ℕ) × (r ≡ error e))
SysResult-cases (done n) = inl (n, refl)
SysResult-cases (error e) = inr (e, refl)

-- The messages, and what the kernel says.
set_noblock-empty : (k : Kernel) → is_empty (set_noblock k).1 ≡ succeeds (k get_flags)
unfolding set_noblock set_block_with_flag
set_noblock-empty k = elim (SysResult-cases (k get_flags)) [
  | inl (n, e) ↦ rw (set_noblock, set_block_with_flag, e) refl
  | inr (n, e) ↦ rw (set_noblock, set_block_with_flag, e) refl
]

set_no_delay-empty : (k : Kernel) → is_empty (set_no_delay k).1 ≡ succeeds (k (tcp_nodelay 0))
unfolding set_no_delay set_delay_with_flag call_errno
set_no_delay-empty k = elim (SysResult-cases (k (tcp_nodelay 0))) [
  | inl (n, e) ↦ rw e refl
  | inr (n, e) ↦ rw e refl
]

connect_to-empty :
    (k : Kernel) (addr : String) (port : ℕ) (s : Socket)
    → is_empty (connect_to k addr port s).1.1 ≡ under_way (k (connect addr port))
unfolding connect_to
connect_to-empty k addr port s = elim (SysResult-cases (k (connect addr port))) [
  | inl (n, e) ↦ rw e refl
  | inr (n, e) ↦ rw e (ground arith)
]

pub check_connect-empty :
    (k : Kernel) (s : Socket) → is_empty (check_connect k s).1 ≡ no_error_left (k get_error)
unfolding check_connect
check_connect-empty k s = elim (SysResult-cases (k get_error)) [
  | inl (n, e) ↦ rw e (ground arith)
  | inr (n, e) ↦ rw e refl
]

-- Connect leaves no message, and waits for the write event; or it leaves one.
unfoldable pub Opened : Bool → Connector → Connecting → Type 0
Opened true c r =
    (s : Socket) × (calls : List SysCall) × (r ≡ (
      record c {
        socket = some s;
        event = some (record { read_notify = false; write_notify = true });
      },
      (calls, empty),
    ))
Opened false c r =
    (s : Option Socket) × (calls : List SysCall) × (m : ErrMsg) × (is_empty m ≡ false)
    × (r ≡ (record c { socket = s }, (calls, m)))

and_then-empty : (a b : Calls) → is_empty (a and_then b).1 ≡ is_empty a.1 && is_empty b.1
unfolding ◌and_then◌
and_then-empty (cs, empty) b = refl
and_then-empty (cs, says t) b = refl
and_then-empty (cs, sys_failed t n) b = refl

opened-Opened :
    (before connecting : Calls) (s : Socket) (c : Connector)
    → Opened (is_empty before.1 && is_empty connecting.1) c (opened before connecting s c)
unfolding opened Opened ◌and_then◌
opened-Opened (bs, empty) (cs, empty) s c = (s, _, refl)
opened-Opened (bs, empty) (cs, says t) s c = (some s, _, says t, refl, refl)
opened-Opened (bs, empty) (cs, sys_failed t n) s c = (some s, _, sys_failed t n, refl, refl)
opened-Opened (bs, says t) connecting s c = (c.socket, _, says t, refl, refl)
opened-Opened (bs, sys_failed t n) connecting s c = (c.socket, _, sys_failed t n, refl, refl)

pub connect_socket-Opened :
    (k : Kernel) (s : Socket) (c : Connector)
    → Opened (opens k c.addr c.port) c (connect_socket k s c)
unfolding connect_socket
connect_socket-Opened k s c =
    let e : is_empty (set_noblock k and_then set_no_delay k).1
          && is_empty (connect_to k c.addr c.port s).1.1
        ≡ opens k c.addr c.port =
      rw
        (
          and_then-empty (set_noblock k) (set_no_delay k),
          set_noblock-empty k,
          set_no_delay-empty k,
          connect_to-empty k c.addr c.port s,
        )
        refl in
    subst (λ b. Opened b c (connect_socket k s c)) e
      (opened-Opened (set_noblock k and_then set_no_delay k) (connect_to k c.addr c.port s).1
        (connect_to k c.addr c.port s).0 c)
