-- ===== src/Net/TcpConnection/Reading.antt =====
-- Receiving in src/net/common/tcp/tcp_connection.cpp: when a reader is called, and with what in the buffer.
use mathlib.Core.List.{append_assoc, append-nil}
use sheep_cpp.Base.{
  ℕ, ◌+◌, ◌<◌, ◌≤◌, ◌≡◌, refl, sym, ap, ◌∙◌, subst, false, none, some, List, [], ◌∷◌, ◌++◌, length,
  take, drop, length-append, length-drop, All, empty, arith,
}
use sheep_cpp.Net.Asyncer.{Called, called}
use sheep_cpp.Net.Buffer
use sheep_cpp.Net.Buffer.{Buffer, u64}
use sheep_cpp.Net.Buffer.Queue.{Holds, push-Holds, pop_head-Holds}
use sheep_cpp.Net.Socket.{moved}
use sheep_cpp.Net.TcpConnection.{
  TcpConnection, Outcome, Env, call, silent, ◌then_do◌, reset_read, async_read, read_handler,
  read_buffer_pop_head,
}

-- A reader of a fixed size waits: `w` is in the buffer, `k` bytes came since the last call, and `n`
-- are expected.
pub record Reading (c : TcpConnection) (w : List ℕ) (k n h : ℕ) : Type 0 where
  pub holds : Holds c.read_buffer w
  pub any : c.any_flag ≡ false
  pub came : c.readed_size ≡ k
  pub expected : c.expect_size ≡ n
  pub reader : c.user_read_handler ≡ some h

-- `b ∷ bs` fits behind the bytes that came, in the buffer and in the count.
abbrev pub Fits : TcpConnection → ℕ → Type 0
Fits c len = (c.read_buffer.write_index + len < u64) × (c.readed_size + len < u64)

written :
    (c : TcpConnection) (w bs : List ℕ)
    → Holds c.read_buffer w
    → c.read_buffer.write_index + length bs < u64
    → (b : Buffer) × (Buffer.write bs c.read_buffer ≡ some b)
      × Holds b (w ++ bs)
      × (b.write_index ≡ c.read_buffer.write_index + length bs)
unfolding Buffer.push
written c w bs h f = push-Holds bs c.read_buffer w h f

-- A chunk that leaves the count below what is expected goes into the buffer, and nobody is called.
pub read_handler-waits :
    (env : Env) (c : TcpConnection) (w : List ℕ) (k n h x : ℕ) (xs : List ℕ)
    → Reading c w k n h
    → Fits c (length (x ∷ xs))
    → k + length (x ∷ xs) < n
    → (c' : TcpConnection) × (read_handler env (moved (x ∷ xs)) c ≡ silent c')
      × Reading c' (w ++ x ∷ xs) (k + length (x ∷ xs)) n h
      × (c'.read_buffer.write_index ≡ c.read_buffer.write_index + length (x ∷ xs))
unfolding read_handler
read_handler-waits env c w k n h x xs r f l =
    let (b, e, g, i) = written c w (x ∷ xs) r.holds f.0 in
    (
      record c { read_buffer = b; readed_size = k + length (x ∷ xs) },
      ground (arith, e),
      record { holds = g; any = r.any; came = refl; expected = r.expected; reader = r.reader },
      i,
    )

-- The chunk that reaches it has the reader called once, with no error, after the counts are cleared.
pub read_handler-calls :
    (env : Env) (c : TcpConnection) (w : List ℕ) (k n h x : ℕ) (xs : List ℕ)
    → Reading c w k n h
    → Fits c (length (x ∷ xs))
    → n ≤ k + length (x ∷ xs)
    → (b : Buffer) × (read_handler env (moved (x ∷ xs)) c
        ≡ some (call env h empty (reset_read (record c { read_buffer = b }))))
      × Holds b (w ++ x ∷ xs)
unfolding read_handler
read_handler-calls env c w k n h x xs r f l =
    let (b, e, g, i) = written c w (x ∷ xs) r.holds f.0 in (b, ground (arith, e), g)

-- One read event after another.
unfoldable pub feed : Env → List (List ℕ) → TcpConnection → Outcome
feed env [] c = silent c
feed env (bs ∷ chunks) c = read_handler env (moved bs) c then_do feed env chunks

abbrev pub joined : List (List ℕ) → List ℕ
joined [] = []
joined (bs ∷ chunks) = bs ++ joined chunks

feed_step :
    (env : Env) (bs : List ℕ) (chunks : List (List ℕ)) (c c' : TcpConnection) (r : Outcome)
    → read_handler env (moved bs) c ≡ silent c'
    → feed env chunks c' ≡ r
    → feed env (bs ∷ chunks) c ≡ r
unfolding feed ◌then_do◌
feed_step env bs chunks c c' r e f = rw (e, f) (unit r)
  where
    unit : (o : Outcome) → (elim o [ none ↦ none | some (d, more) ↦ some (d, [] ++ more) ]) ≡ o
    unit none = refl
    unit (some (d, more)) = refl

feed_last :
    (env : Env) (bs : List ℕ) (c : TcpConnection) (r : TcpConnection × List Called)
    → read_handler env (moved bs) c ≡ some r
    → feed env (bs ∷ []) c ≡ some r
unfolding feed ◌then_do◌
feed_last env bs c (d, calls) e = rw (e, append-nil calls) refl

-- A read of a fixed size over any number of non-empty chunks, of which the last one reaches the
-- size expected, with the sizes below 2^64: nobody is called before the last chunk; then the
-- reader is called once with no error, the counts cleared, and the buffer holds all bytes in
-- their order.
pub feed-Reading :
    (env : Env) (chunks : List (List ℕ)) (x : ℕ) (xs : List ℕ) (c : TcpConnection) (w : List ℕ)
    (k n h : ℕ)
    → Reading c w k n h
    → All (λ bs. 0 < length bs) chunks
    → Fits c (length (joined chunks) + length (x ∷ xs))
    → k + length (joined chunks) < n
    → n ≤ k + (length (joined chunks) + length (x ∷ xs))
    → (b : Buffer) × (c' : TcpConnection) × (feed env (chunks ++ (x ∷ xs) ∷ []) c
        ≡ some (call env h empty (reset_read (record c' { read_buffer = b }))))
      × Holds b (w ++ (joined chunks ++ x ∷ xs))
unfolding feed
feed-Reading env [] x xs c w k n h r v f l m =
    let (b, e, g) =
      read_handler-calls env c w k n h x xs r (omega arith, omega arith) (omega arith) in
    (b, c, feed_last env (x ∷ xs) c _ e, g)
feed-Reading env ([] ∷ chunks) x xs c w k n h r v f l m = absurd (omega arith)
feed-Reading env ((y ∷ ys) ∷ chunks) x xs c w k n h r v f l m =
    let a = length-append (y ∷ ys) (joined chunks) in
    let (c1, e, s, z) =
      read_handler-waits env c w k n h y ys r (omega arith, omega arith) (omega arith) in
    let (b, c', g, i) =
      feed-Reading env chunks x xs c1 (w ++ y ∷ ys) (k + length (y ∷ ys)) n h s v.1
        (omega (arith, z, a, s.came, r.came), omega (arith, z, a, s.came, r.came)) (omega arith)
        (omega arith) in
    (
      b,
      c',
      feed_step env (y ∷ ys) (chunks ++ (x ∷ xs) ∷ []) c c1 _ e g,
      subst (Holds b)
          (append_assoc w (y ∷ ys) _
            ∙ ap (λ (q : List ℕ). w ++ q) (sym (append_assoc (y ∷ ys) _ _)))
          i,
    )

-- AsyncRead with too few bytes counted calls nobody, and leaves a reader that waits for `n`.
pub async_read-Reading :
    (env : Env) (c : TcpConnection) (w : List ℕ) (k n h : ℕ)
    → Holds c.read_buffer w
    → c.readed_size ≡ k
    → k < n
    → (c' : TcpConnection) × (async_read env n h c ≡ silent c') × Reading c' w k n h
unfolding async_read
async_read-Reading env c w k n h i e l = (
  record c { any_flag = false; expect_size = n; user_read_handler = some h },
  ground arith,
  record { holds = i; any = refl; came = e; expected = refl; reader = refl },
)

-- Where more bytes were counted than a reader asks for and the reader takes its own, a next
-- AsyncRead of m bytes is not served, though the buffer holds at least m bytes.
surplus_forgotten :
    (env : Env) (c : TcpConnection) (w : List ℕ) (n m h h' : ℕ)
    → ((d : TcpConnection) → env h empty d ≡ (d, []))
    → Holds c.read_buffer w
    → n ≤ c.readed_size
    → c.read_buffer.read_index + n < u64
    → 0 < m
    → n + m ≤ length w
    → (c1 c2 c3 : TcpConnection) × (async_read env n h c ≡ some (c1, called h empty))
      × (read_buffer_pop_head n c1 ≡ some (take n w, c2))
      × (async_read env m h' c2 ≡ silent c3)
      × Holds c3.read_buffer (drop n w)
      × (m ≤ length (drop n w))
unfolding async_read call reset_read read_buffer_pop_head
surplus_forgotten env c w n m h h' quiet i l r z s =
    let (b, e, g) = pop_head-Holds n c.read_buffer w i r in
    let c1 = record c { any_flag = false; expect_size = 0; readed_size = 0 } in
    let c2 = record c1 { read_buffer = b } in
    (
      c1,
      c2,
      record c2 { any_flag = false; expect_size = m; user_read_handler = some h' },
      ground (arith, quiet c1),
      rw (e, read_buffer_pop_head) refl,
      ground arith,
      g,
      omega (arith, length-drop n w),
    )
