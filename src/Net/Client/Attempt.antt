-- ===== src/Net/Client/Attempt.antt =====
-- How one attempt of src/net/client/client.cpp to connect ends.
use sheep_cpp.Base.{
  ℕ, ◌≡◌, ◌≢◌, refl, sym, ap, ◌∙◌, subst, Bool, true, false, not, ◌&&◌, Option, none, some, [],
  ◌++◌, String, if◌then◌else◌, ErrMsg, empty, says, sys_failed, is_empty, arith,
}
use sheep_cpp.Net.Asyncer.{Asyncer, called, called_if_set, make_asyncer, async_do}
use sheep_cpp.Net.Connector.{Connector, Connecting, make_connector, connect_socket, written}
use sheep_cpp.Net.Connector.Opening.{
  opens, no_error_left, check_connect-empty, Opened, connect_socket-Opened,
}
use sheep_cpp.Net.Socket.{Socket, get_error, Kernel, check_connect}
use sheep_cpp.Net.TcpConnection.{Notify}
use sheep_cpp.Net.Client.{
  Client, Acted, async_connect, on_posted, on_writable, on_written, on_new_connection,
}

-- What the loop calls: the asyncer's lambda, and the connector's write event if it is put on.
abbrev pub watches : Client → Bool
watches c = elim c.connector [
  | none ↦ false
  | some x ↦ elim x.event [ none ↦ false | some n ↦ n.write_notify ]
]

unfoldable pub attempt : Kernel → ErrMsg → Client → Option Acted
unfolding on_posted on_writable
attempt k e c = elim (on_posted k e c) [
  | none ↦ none
  | some (c', calls) ↦
      if watches c'
      then elim (on_writable k c') [ none ↦ none | some (c'', more) ↦ some (c'', calls ++ more) ]
      else some (c', calls)
]

-- The kernel lets the client connect.
abbrev pub reaches : Kernel → String → ℕ → Bool
reaches k addr port = opens k addr port && no_error_left (k get_error)

-- Exactly one handler is called.
abbrev pub Ends : Bool → ℕ → ℕ → Acted → Type 0
Ends true d h (c, calls) = (calls ≡ called h empty) × (c.connection ≢ none)
Ends false d h (c, calls) =
    (e : ErrMsg) × (is_empty e ≡ false) × (calls ≡ called d e) × (c.connection ≡ none)

-- The client that AsyncConnect leaves, and its connector with the handlers.
abbrev ready : Connector → String → ℕ → Option Asyncer → ℕ → ℕ → Client
ready x addr port a d h = record {
  addr = addr;
  port = port;
  connect_called = true;
  connector = some x;
  asyncer = a;
  connected_handler = some h;
  disconnected_handler = some d;
  connection = none;
}

abbrev armed : String → ℕ → ℕ → ℕ → Connector
armed addr port fd d = record (make_connector addr port fd) {
  new_connection_handler = true;
  connect_failed_handler = some d;
}

-- What is left to do once the connector has tried.
after : Kernel → Client → Connecting → Option Acted
after k c (y, (calls, m)) =
    let c' = record c { connector = some y } in
    let said = if not (is_empty m) then called_if_set c.disconnected_handler m else [] in
    if watches c'
    then elim (on_writable k c') [ none ↦ none | some (c'', more) ↦ some (c'', said ++ more) ]
    else some (c', said)

attempt-after :
    (k : Kernel) (addr : String) (port fd : ℕ) (a : Option Asyncer) (d h : ℕ)
    → attempt k empty (ready (make_connector addr port fd) addr port a d h)
      ≡ after k
          (ready (make_connector addr port fd) addr port a d h)
          (connect_socket k (record { fd = fd; addr = ""; port = 0 }) (armed addr port fd d))
unfolding attempt after on_posted make_connector
attempt-after k addr port fd a d h = refl

-- The write event, where the connector waits for it.
waiting_for : String → ℕ → Socket → Bool → ℕ → Connector
waiting_for addr port s b d = record {
  addr = addr;
  port = port;
  event = some (record { read_notify = false; write_notify = true });
  socket = some s;
  new_connection_handler = b;
  connect_failed_handler = some d;
}

on_written-Ends :
    (m : ErrMsg) (addr ad : String) (port po : ℕ) (a : Option Asyncer) (s : Socket) (b : Bool)
    (d h : ℕ) (n : Notify)
    → (r : Acted) × (on_written
          (ready (waiting_for addr port s b d) ad po a d h)
          (written m s n (waiting_for addr port s b d))
        ≡ some r)
      × Ends (is_empty m) d h r
unfolding on_written on_new_connection written waiting_for
on_written-Ends empty addr ad port po a s b d h n = (_, refl, (refl, λ w. ground (arith, w)))
on_written-Ends (says t) addr ad port po a s b d h n = (_, refl, (says t, refl, refl, refl))
on_written-Ends (sys_failed t e) addr ad port po a s b d h n =
    (_, refl, (sys_failed t e, refl, refl, refl))

on_writable-Ends :
    (k : Kernel) (addr ad : String) (port po : ℕ) (a : Option Asyncer) (s : Socket) (b : Bool)
    (d h : ℕ)
    → (r : Acted) × (on_writable k (ready (waiting_for addr port s b d) ad po a d h) ≡ some r)
      × Ends (no_error_left (k get_error)) d h r
unfolding on_writable waiting_for
on_writable-Ends k addr ad port po a s b d h =
    let (r, e, p) =
      on_written-Ends (check_connect k s).1 addr ad port po a s b d h
        (record { read_notify = false; write_notify = false }) in
    (r, e, subst (λ b. Ends b d h r) (check_connect-empty k s) p)

-- The end of an attempt.
AfterEnds : Kernel → String → ℕ → ℕ → Option Asyncer → ℕ → ℕ → Bool → Connecting → Type 0
AfterEnds k addr port fd a d h b r =
    (t : Acted) × (after k (ready (make_connector addr port fd) addr port a d h) r ≡ some t)
    × Ends b d h t

after-AfterEnds :
    (k : Kernel) (addr : String) (port fd : ℕ) (a : Option Asyncer) (d h : ℕ) (b : Bool)
    (r : Connecting)
    → Opened b (armed addr port fd d) r
    → AfterEnds k addr port fd a d h (b && no_error_left (k get_error)) r
unfolding after Opened make_connector waiting_for AfterEnds
after-AfterEnds k addr port fd a d h true r (s, calls, e) =
    let (t, q, p) = on_writable-Ends k addr addr port port a s true d h in
    subst (AfterEnds k addr port fd a d h (no_error_left (k get_error))) (sym e) (t, rw q refl, p)
after-AfterEnds k addr port fd a d h false r (s, calls, empty, n, e) = absurd (ground (arith, n))
after-AfterEnds k addr port fd a d h false r (s, calls, says t, n, e) =
    subst (AfterEnds k addr port fd a d h false) (sym e) (_, refl, (says t, refl, refl, refl))
after-AfterEnds k addr port fd a d h false r (s, calls, sys_failed t m, n, e) =
    subst (AfterEnds k addr port fd a d h false) (sym e)
      (_, refl, (sys_failed t m, refl, refl, refl))

async_connect-ready :
    (junk : Bool) (fd : ℕ) (c : Client) (d h : ℕ)
    → c.disconnected_handler ≡ some d
    → c.connected_handler ≡ some h
    → (async_connect junk fd c).0
      ≡ ready
          (make_connector c.addr c.port fd)
          c.addr
          c.port
          (some (async_do d (make_asyncer junk)).0)
          d
          h
unfolding async_connect
async_connect-ready junk fd c d h e f =
    rw (async_connect, e, f)
      (λ i. record {
        addr = c.addr;
        port = c.port;
        connect_called = true;
        connector = some (make_connector c.addr c.port fd);
        asyncer = some (async_do d (make_asyncer junk)).0;
        connected_handler = f i;
        disconnected_handler = e i;
        connection = none;
      })

-- One attempt of a client with both handlers to connect, on any kernel: after AsyncConnect, the
-- handler of its asyncer and the write event that Connect may ask for call exactly one handler,
-- once. It is the connected handler without an error, and there is a connection, if the kernel
-- gives the flags, takes TCP_NODELAY, connects or says EINPROGRESS, and then has no error on the
-- socket; else it is the disconnected handler with an error, and there is no connection.
pub attempt-Ends :
    (k : Kernel) (junk : Bool) (fd : ℕ) (c : Client) (d h : ℕ)
    → c.disconnected_handler ≡ some d
    → c.connected_handler ≡ some h
    → (r : Acted) × (attempt k empty (async_connect junk fd c).0 ≡ some r)
      × Ends (reaches k c.addr c.port) d h r
unfolding AfterEnds make_connector
attempt-Ends k junk fd c d h e f =
    let x = armed c.addr c.port fd d in
    let s : Socket = record { fd = fd; addr = ""; port = 0 } in
    let a = some (async_do d (make_asyncer junk)).0 in
    let (r, q, p) =
      after-AfterEnds k c.addr c.port fd a d h (opens k c.addr c.port) (connect_socket k s x)
        (connect_socket-Opened k s x) in
    (
      r,
      ap (attempt k empty) (async_connect-ready junk fd c d h e f)
          ∙ attempt-after k c.addr c.port fd a d h
          ∙ q,
      p,
    )
