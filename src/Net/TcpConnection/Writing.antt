-- ===== src/Net/TcpConnection/Writing.antt =====
-- The bytes that go over the socket in src/net/common/tcp/tcp_connection.cpp.
use mathlib.Core.List.{append_assoc}
use sheep_cpp.Base.{
  ℕ, ◌+◌, ◌<◌, ◌≤◌, ◌≡◌, refl, ap, ◌∙◌, subst, true, false, Option, none, some, List, [], ◌∷◌, ◌++◌,
  length, take, drop, length-append, length-take, length-drop, take-take_le, take-add, drop-drop,
  All, empty, arith,
}
use sheep_cpp.Net.Asyncer.{Called}
use sheep_cpp.Net.Buffer
use sheep_cpp.Net.Buffer.{Buffer, u64}
use sheep_cpp.Net.Buffer.Queue.{Holds, read-Holds, update_read_index-Holds}
use sheep_cpp.Net.Socket.{IoResult, moved, failed, eagain}
use sheep_cpp.Net.TcpConnection.{
  TcpConnection, Notify, Env, call, call_set, silent, Outcome, write_handler, received, sent,
}

-- The bytes `w` wait to be sent, and the indices stay clear of the end of the word.
pub record Sending (c : TcpConnection) (w : List ℕ) : Type 0 where
  pub holds : Holds c.write_buffer w
  pub room : c.write_buffer.write_index + 1024 < u64
  pub ready : (n : Notify) × (c.event ≡ some n)

-- The kernel takes the first `k` of the bytes that it is offered.
abbrev pub takes : ℕ → List ℕ → IoResult
takes k bs = moved (take k bs)

offered :
    {c : TcpConnection} {w : List ℕ}
    → Sending c w
    → Buffer.read 1024 c.write_buffer ≡ some (take 1024 w)
offered {c} {w} s =
    read-Holds 1024 c.write_buffer w s.holds (omega (arith, s.holds.at_write, s.room))

sent-takes :
    (env : Env) (k : ℕ) (bs : List ℕ) (c : TcpConnection)
    → sent env (takes k bs) c
      ≡ silent
          (record c { write_buffer = Buffer.update_read_index (length (take k bs)) c.write_buffer })
unfolding sent
sent-takes env k bs c = refl

update-write_index_le :
    (n : ℕ) (b : Buffer) → (Buffer.update_read_index n b).write_index ≤ b.write_index
unfolding Buffer.update_read_index
update-write_index_le n b = ground arith

-- With bytes left, a write event sends the first of them, as many as the kernel takes, and no handler
-- is called.
pub write_handler-takes :
    (env : Env) (k x : ℕ) (w : List ℕ) (c : TcpConnection)
    → Sending c (x ∷ w)
    → (c' : TcpConnection) × (write_handler env (takes k) c
        ≡ (silent c', take k (take 1024 (x ∷ w))))
      × Sending c' (drop (length (take k (take 1024 (x ∷ w)))) (x ∷ w))
      × (c'.user_write_handler ≡ c.user_write_handler)
unfolding write_handler received
write_handler-takes env k x w c s =
    let n = length (take k (take 1024 (x ∷ w))) in
    (
      record c { write_buffer = Buffer.update_read_index n c.write_buffer },
      rw (offered s, write_handler)
          (ap (λ o. (o, take k (x ∷ take 1023 w))) (sent-takes env k (x ∷ take 1023 w) c)),
      record {
        holds =
            update_read_index-Holds n c.write_buffer (x ∷ w) s.holds
              (omega (arith, length-take k (take 1024 (x ∷ w)), length-take 1024 (x ∷ w)));
        room = omega (arith, update-write_index_le n c.write_buffer, s.room);
        ready = s.ready;
      },
      refl,
    )

-- A write event with nothing left to send marks the write as done, stops the write notification
-- and calls the write handler without an error.
write_handler-done :
    (env : Env) (h : ℕ) (kernel : List ℕ → IoResult) (c : TcpConnection) (n : Notify)
    → Sending c []
    → c.user_write_handler ≡ some h
    → c.event ≡ some n
    → (write_handler env kernel c).0
      ≡ some (
          call env h empty
            (record c { write_done = true; event = some (record n { write_notify = false }) }))
unfolding write_handler call_set
write_handler-done env h kernel c n s e f = rw (offered s, write_handler) (ground arith)

-- The whole exchange: write events with the sizes that the kernel takes, and the bytes that it took.
-- What goes over the socket in one event goes before that of the later ones.
abbrev pub Flushed : Type 0
Flushed = Option (TcpConnection × List ℕ × List Called)

abbrev pub then_flush : (TcpConnection → Flushed) → Outcome × List ℕ → Flushed
then_flush again (none, wire) = none
then_flush again (some (c, calls), wire) = elim (again c) [
  | none ↦ none
  | some (d, more, later) ↦ some (d, wire ++ more, calls ++ later)
]

unfoldable pub flush : Env → List ℕ → TcpConnection → Flushed
unfolding write_handler
flush env [] c = some (c, [], [])
flush env (k ∷ ks) c = then_flush (flush env ks) (write_handler env (takes k) c)

abbrev pub sum : List ℕ → ℕ
sum [] = 0
sum (k ∷ ks) = k + sum ks

flush_step :
    (env : Env) (k : ℕ) (ks : List ℕ) (c c1 c2 : TcpConnection) (bs more : List ℕ)
    → write_handler env (takes k) c ≡ (silent c1, take k bs)
    → flush env ks c1 ≡ some (c2, more, [])
    → flush env (k ∷ ks) c ≡ some (c2, take k bs ++ more, [])
unfolding flush
flush_step env k ks c c1 c2 bs more f g = ap (then_flush (flush env ks)) f ∙ rw (then_flush, g) refl

-- A sequence of write events in which the kernel takes between 1 and 1024 bytes at a time, in sum
-- at most what is buffered, of a connection whose write index is more than 1024 below 2^64: what
-- went over the socket is the first bytes of the queue in their order, the rest still waits, and
-- no handler is called.
pub flush-Sending :
    (env : Env) (ks : List ℕ) (w : List ℕ) (c : TcpConnection)
    → Sending c w
    → All (λ k. (0 < k) × (k ≤ 1024)) ks
    → sum ks ≤ length w
    → (c' : TcpConnection) × (flush env ks c ≡ some (c', take (sum ks) w, []))
      × Sending c' (drop (sum ks) w)
unfolding flush
flush-Sending env [] w c s v l = (c, refl, s)
flush-Sending env (k ∷ ks) [] c s v l = absurd (omega arith)
flush-Sending env (k ∷ ks) (x ∷ w) c s v l =
    let taken : take k (take 1024 (x ∷ w)) ≡ take k (x ∷ w) = take-take_le k 1024 (x ∷ w) v.0.1 in
    let size : length (take k (take 1024 (x ∷ w))) ≡ k =
      ap length taken ∙ omega (arith, length-take k (x ∷ w)) in
    let (c1, e1, s1, _) = write_handler-takes env k x w c s in
    let (c2, e2, s2) =
      flush-Sending env ks (drop k (x ∷ w)) c1 (subst (λ n. Sending c1 (drop n (x ∷ w))) size s1)
        v.1 (omega (arith, length-drop k (x ∷ w))) in
    (
      c2,
      flush_step env k ks c c1 c2 (take 1024 (x ∷ w)) (take (sum ks) (drop k (x ∷ w))) e1 e2
          ∙ ap (λ (l : List ℕ). some (c2, l, []))
              (ap (λ (l : List ℕ). l ++ take (sum ks) (drop k (x ∷ w))) taken
                ∙ take-add k (sum ks) (x ∷ w)),
      subst (Sending c2) (drop-drop k (sum ks) (x ∷ w)) s2,
    )

-- Where the last byte sent was x and bytes y ∷ w wait, a write(2) that fails with EAGAIN leaves x
-- ∷ y ∷ w waiting: the byte x is sent once more.
would_block_resends :
    (env : Env) (d w : List ℕ) (x y : ℕ) (c : TcpConnection) (s : Sending c (y ∷ w))
    → s.holds.done ≡ d ++ x ∷ []
    → (c' : TcpConnection) × ((write_handler env (λ bs. failed eagain) c).0 ≡ silent c')
      × Holds c'.write_buffer (x ∷ y ∷ w)
unfolding write_handler sent Buffer.update_read_index
would_block_resends env d w x y c s e =
    let h = s.holds in
    let p : c.write_buffer.read_index ≡ length d + 1 =
      omega (arith, ap length e, length-append d (x ∷ []), h.at_read) in
    (
      record c { write_buffer = record c.write_buffer { read_index = length d } },
      rw (offered s, write_handler) (ground (arith, h.at_write, h.small)),
      record {
        done = d;
        spare = h.spare;
        layout = h.layout ∙ ap (λ (l : List ℕ). l ++ (y ∷ w ++ h.spare)) e ∙ simp append_assoc;
        at_read = refl;
        at_write = omega (arith, ap length e, length-append d (x ∷ []), h.at_read, h.at_write);
        small = h.small;
      },
    )
