-- ===== src/Net/TcpConnection/Finishing.antt =====
-- The end of a connection in src/net/common/tcp/tcp_connection.cpp.
use mathlib.Core.List.{append_assoc}
use sheep_cpp.Base.{
  ℕ, ◌≡◌, ◌∙◌, ap, refl, Bool, true, false, not, Option, none, some, List, Option-cases, Bool-cases,
  inl, inr, [], ◌∷◌, ◌++◌, if◌then◌else◌, ErrMsg, says, arith,
}
use sheep_cpp.Net.Asyncer.{Asyncer, Called, called, cancel}
use sheep_cpp.Net.TcpConnection.{
  TcpConnection, Outcome, Env, call, call_set, silent, finish, finish_writer, cancel_asyncer,
  pass_on, ◌then_do◌, async_write,
}

-- The handlers that the connection still owes a call when it finishes: one write handler that waits
-- for the loop, one that waits for the socket, and the finish handler with the reason.
abbrev canceled : Option Bool → Bool → Option ℕ → List Called
canceled (some notify) false (some h) = called h (says "Asyncer Canceled")
canceled _ _ _ = []

abbrev posted : Option Asyncer → List Called
posted none = []
posted (some a) = canceled a.event a.done a.handler

cancel-calls : (a : Asyncer) → (cancel a).1 ≡ canceled a.event a.done a.handler
unfolding cancel
cancel-calls a = elim (Option-cases a.event) [
  | inl e ↦ rw e refl
  | inr (n, e) ↦ elim (Option-cases a.handler) [
    | inl f ↦ elim (Bool-cases a.done) [ inl d ↦ rw (e, d) refl | inr d ↦ rw (e, d, f) refl ]
    | inr (h, f) ↦ elim (Bool-cases a.done) [ inl d ↦ rw (e, d) refl | inr d ↦ rw (e, d, f) refl ]
  ]
]

abbrev after_cancel : Option Asyncer → Option Asyncer
after_cancel none = none
after_cancel (some a) = some (cancel a).0

abbrev writer : Option ℕ → Bool → List Called
writer none done = []
writer (some h) done = if not done then called h (says "Finished") else []

abbrev writer_done : Option ℕ → Bool → Bool
writer_done none done = done
writer_done (some h) done = true

abbrev pub owed : TcpConnection → ErrMsg → ℕ → List Called
owed c e f = posted c.asyncer ++ (writer c.user_write_handler c.write_done ++ called f e)

pass_on_quiet :
    (env : Env) (ks : List Called) (c : TcpConnection)
    → ((h : ℕ) (e : ErrMsg) (d : TcpConnection) → env h e d ≡ (d, []))
    → pass_on env ks c ≡ some (c, ks)
unfolding pass_on call ◌then_do◌
pass_on_quiet env [] c q = refl
pass_on_quiet env (k ∷ ks) c q =
    let r = pass_on_quiet env ks c q in ground (arith, r, q k.handler k.err_msg c)

then_do_eq :
    (o : Outcome) (f : TcpConnection → Outcome) (c d : TcpConnection) (ks ls : List Called)
    → o ≡ some (c, ks)
    → f c ≡ some (d, ls)
    → (o then_do f) ≡ some (d, ks ++ ls)
unfolding ◌then_do◌
then_do_eq o f c d ks ls e g = rw (e, ◌then_do◌) (rw (g, ◌then_do◌) refl)

-- What Finish does the first time.
first_finish : Env → ErrMsg → TcpConnection → Outcome
first_finish env e c =
    cancel_asyncer env (record c { finished = true }) then_do finish_writer env then_do λ c'.
    call_set env c'.finish_handler e (record c' { event = none })

finish-first_finish :
    (env : Env) (e : ErrMsg) (c : TcpConnection)
    → c.finished ≡ false
    → finish env e c ≡ first_finish env e c
unfolding finish first_finish
finish-first_finish env e c n = ground arith

module _ (env : Env) (q : (h : ℕ) (e : ErrMsg) (d : TcpConnection) → env h e d ≡ (d, [])) where
  cancel_asyncer_quiet :
      (c : TcpConnection)
      → cancel_asyncer env c
        ≡ some (record c { asyncer = after_cancel c.asyncer }, posted c.asyncer)
  unfolding cancel_asyncer
  cancel_asyncer_quiet c = elim (Option-cases c.asyncer) [
    | inl e ↦ ground arith
    | inr (a, e) ↦
        let r = pass_on_quiet env (cancel a).1 (record c { asyncer = some (cancel a).0 }) q in
        let calls = cancel-calls a in ground (arith, r, calls)
  ]

  finish_writer_quiet :
      (c : TcpConnection)
      → finish_writer env c
        ≡ some (
          record c { write_done = writer_done c.user_write_handler c.write_done },
          writer c.user_write_handler c.write_done,
        )
  unfolding finish_writer call
  finish_writer_quiet c = elim (Option-cases c.user_write_handler) [
    | inl e ↦ ground arith
    | inr (h, e) ↦
        let r = q h (says "Finished") (record c { write_done = true }) in ground (arith, r)
  ]

  -- The first Finish of a connection with a finish handler, where handlers change nothing
  -- themselves: it calls, each once and in this order, the handler of an asyncer that has one,
  -- has an event and is not done, with "Asyncer Canceled", the write handler if the write is
  -- not done, with "Finished", and the finish handler with the reason; the connection is then
  -- marked and has no event.
  pub finish-owed :
      (c : TcpConnection) (e : ErrMsg) (f : ℕ)
      → c.finished ≡ false
      → c.finish_handler ≡ some f
      → (c' : TcpConnection) × (finish env e c ≡ some (c', owed c e f))
        × (c'.finished ≡ true)
        × (c'.event ≡ none)
  unfolding first_finish call_set call
  finish-owed c e f n g =
      let c1 = record c { finished = true } in
      let c2 = record c1 { asyncer = after_cancel c.asyncer } in
      let c3 = record c2 { write_done = writer_done c.user_write_handler c.write_done } in
      let c4 = record c3 { event = none } in
      let last = q f e c4 in
      (
        c4,
        finish-first_finish env e c n
            ∙ then_do_eq _ (λ c'. call_set env c'.finish_handler e (record c' { event = none })) c3
                c4 (posted c.asyncer ++ writer c.user_write_handler c.write_done) (called f e)
                (then_do_eq _ (finish_writer env) c2 c3 (posted c.asyncer)
                  (writer c.user_write_handler c.write_done) (cancel_asyncer_quiet c1)
                  (finish_writer_quiet c2))
                (ground (arith, last))
            ∙ ap (λ (l : List Called). some (c4, l))
                (append_assoc (posted c.asyncer) (writer c.user_write_handler c.write_done)
                  (called f e)),
        refl,
        refl,
      )

-- On a connection that is finished, Finish calls nobody and changes nothing, and AsyncWrite calls
-- its handler at once with "Finished".
finish_twice :
    (env : Env) (c : TcpConnection) (e : ErrMsg) (junk : Bool) (h : ℕ)
    → c.finished ≡ true
    → (finish env e c ≡ silent c)
      × (async_write env junk h c ≡ some (call env h (says "Finished") c))
unfolding finish async_write
finish_twice env c e junk h t = (ground arith, ground arith)
