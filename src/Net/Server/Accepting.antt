-- ===== src/Net/Server/Accepting.antt =====
-- The connections of src/net/server/server.cpp, and what its users hear of them.
use sheep_cpp.Base.{
  ℕ, ◌≡◌, ◌⊎◌, ◌↔◌, refl, sym, ap, ◌∙◌, inl, inr, true, none, some, [], if◌then◌else◌, ◌==◌, ErrMsg,
  empty, says, sys_failed, is_empty, Bool-cases, arith,
}
use sheep_cpp.Net.Acceptor.{read_handler}
use sheep_cpp.Net.Client.{make_connection}
use sheep_cpp.Net.Socket.{
  Kernel, accept, fd, SysResult, done, error, eagain, accept_one, set_noblock, set_no_delay,
}
use sheep_cpp.Net.TcpConnection
use sheep_cpp.Net.TcpConnection.{TcpConnection}
use sheep_cpp.Net.Server.{Server, accepted_connection, welcome, on_new_connection, on_readable}

-- What InitAccepted says of a new connection.
abbrev pub accepted_err : Kernel → ErrMsg
accepted_err k = if is_empty (set_noblock k).1 then (set_no_delay k).1 else (set_noblock k).1

init_accepted_said :
    (a b : ErrMsg) (finish : ℕ)
    → (y : TcpConnection) × (TcpConnection.init_accepted a b (accepted_connection finish)
        ≡ some (y, if is_empty a then b else a))
unfolding TcpConnection.init_accepted make_connection
init_accepted_said empty empty finish = (_, refl)
init_accepted_said empty (says t) finish = (_, refl)
init_accepted_said empty (sys_failed t n) finish = (_, refl)
init_accepted_said (says t) b finish = (_, refl)
init_accepted_said (sys_failed t n) b finish = (_, refl)

on_new_connection_eq :
    (k : Kernel) (finish n : ℕ) (s : Server)
    → on_new_connection k finish (fd n) s ≡ some (welcome (accepted_err k) s)
unfolding on_new_connection welcome
on_new_connection_eq k finish n s =
    let (y, e) = init_accepted_said (set_noblock k).1 (set_no_delay k).1 finish in
    rw (on_new_connection, e) refl

pub accept-cases : (k : Kernel) → ((n : ℕ) × (k accept ≡ done n)) ⊎ ((e : ℕ) × (k accept ≡ error e))
accept-cases k = split (k accept)
  where
    split : (r : SysResult) → ((n : ℕ) × (r ≡ done n)) ⊎ ((e : ℕ) × (r ≡ error e))
    split (done n) = inl (n, refl)
    split (error e) = inr (e, refl)

-- The read event on each answer of the kernel.
pub readable_done :
    (k : Kernel) (finish n : ℕ) (s : Server)
    → k accept ≡ done n
    → on_readable k finish s ≡ some (welcome (accepted_err k) s)
unfolding on_readable read_handler accept_one
readable_done k finish n s e =
    rw (on_readable, read_handler, accept_one, e) (on_new_connection_eq k finish n s)

pub readable_error :
    (k : Kernel) (finish e : ℕ) (s : Server)
    → k accept ≡ error e
    → on_readable k finish s ≡ (if e == eagain then none else some (s, []))
unfolding on_readable read_handler accept_one on_new_connection
readable_error k finish e s f = elim (Bool-cases (e == eagain)) [
  | inl t ↦ rw (on_readable, read_handler, accept_one, f, t) refl
  | inr t ↦ rw (on_readable, read_handler, accept_one, f, t) refl
]

-- The read event of the acceptor crashes the server exactly if accept fails with EAGAIN.
readable_crash :
    (k : Kernel) (finish : ℕ) (s : Server)
    → (on_readable k finish s ≡ none) ↔ (k accept ≡ error eagain)
readable_crash k finish s = elim (accept-cases k) [
  | inl (n, e) ↦ (
    λ h. let r = sym (readable_done k finish n s e) ∙ h in absurd (ground (arith, r)),
    λ h. let r = sym e ∙ h in absurd (ground (arith, r)),
  )
  | inr (m, e) ↦ (
    λ h.
        let r = sym (readable_error k finish m s e) ∙ h in
        elim (Bool-cases (m == eagain)) [
          | inl t ↦ e ∙ ap error (ground (arith, t))
          | inr t ↦ absurd (ground (arith, r, t))
        ],
    λ h.
        let r = sym e ∙ h in
        readable_error k finish m s e
        ∙ (let t : m == eagain ≡ true = ground (arith, r) in rw t refl),
  )
]
