-- ===== src/Net/CoTcpConnection/Reads.antt =====
-- What Read of src/net/common/tcp/co_tcp_connection.cpp returns.
use sheep_cpp.Base.{
  ℕ, ◌+◌, ◌<◌, ◌≤◌, ◌≡◌, refl, ap, ◌∙◌, true, false, Option, none, some, List, [], ◌∷◌, ◌++◌,
  length, take, drop, length-append, All, ◌==◌, ErrMsg, empty, arith,
}
use sheep_cpp.Net.Buffer.Queue.{Holds, pop_head-Holds}
use sheep_cpp.Net.TcpConnection.{
  TcpConnection, Outcome, call, ◌then_do◌, reset_read, async_read, silent, read_buffer_pop_head,
}
use sheep_cpp.Net.TcpConnection.Reading.{Reading, Fits, feed, joined, feed-Reading}
use sheep_cpp.Net.CoTcpConnection.{resumes, Stands, back, woken_with, read_on, go_on, read}

after_silent : (c : TcpConnection) (f : TcpConnection → Outcome) → (silent c then_do f) ≡ f c
unfolding ◌then_do◌
after_silent c f = unit (f c)
  where
    unit : (o : Outcome) → (elim o [ none ↦ none | some (d, more) ↦ some (d, [] ++ more) ]) ≡ o
    unit none = refl
    unit (some (d, more)) = refl

-- The coroutine whose handler was called with no error goes on.
go_on-call :
    (rest : ErrMsg → TcpConnection → Option Stands) (coro : ℕ) (c : TcpConnection)
    → go_on rest coro (some (call resumes coro empty c)) ≡ rest empty c
unfolding go_on woken_with call
go_on-call rest coro c =
    let e : (coro == coro) ≡ true = ground arith in rw (go_on, woken_with, e) refl

read_on-Holds :
    (n : ℕ) (c : TcpConnection) (w : List ℕ)
    → Holds c.read_buffer w
    → n ≤ length w
    → (c' : TcpConnection) × (read_on n empty c ≡ some (back n empty (take n w) c'))
      × Holds c'.read_buffer (drop n w)
unfolding read_on read_buffer_pop_head
read_on-Holds n c w h l =
    let at = h.at_write in
    let small = h.small in
    let (b, e, g) = pop_head-Holds n c.read_buffer w h (omega (arith, at, small, l)) in
    (record c { read_buffer = b }, rw e refl, g)

-- A Read of n bytes by a coroutine, on a connection where w waits and k of its bytes count, fewer
-- than n, while non-empty chunks come of which the last one reaches n, with the sizes below 2^64:
-- the coroutine is resumed, and its Read returns n, no error and the first n of the bytes that
-- waited and came, in order; the others wait.
pub read-whole :
    (chunks : List (List ℕ)) (x : ℕ) (xs : List ℕ) (c : TcpConnection) (w : List ℕ) (k n coro : ℕ)
    → Holds c.read_buffer w
    → c.readed_size ≡ k
    → k ≤ length w
    → All (λ bs. 0 < length bs) chunks
    → Fits c (length (joined chunks) + length (x ∷ xs))
    → k + length (joined chunks) < n
    → n ≤ k + (length (joined chunks) + length (x ∷ xs))
    → (c' : TcpConnection) × (read (chunks ++ (x ∷ xs) ∷ []) n coro c
        ≡ some (back n empty (take n (w ++ (joined chunks ++ x ∷ xs))) c'))
      × Holds c'.read_buffer (drop n (w ++ (joined chunks ++ x ∷ xs)))
unfolding read reset_read async_read
read-whole chunks x xs c w k n coro h z m a f l r =
    let c1 = record c { any_flag = false; expect_size = n; user_read_handler = some coro } in
    let v : Reading c1 w k n coro = record {
      holds = h;
      any = refl;
      came = z;
      expected = refl;
      reader = refl;
    } in
    let s : async_read resumes n coro c ≡ silent c1 = ground (arith, z, l) in
    let (b, d, e, g) = feed-Reading resumes chunks x xs c1 w k n coro v a f l r in
    let all = w ++ (joined chunks ++ x ∷ xs) in
    let d1 = reset_read (record d { read_buffer = b }) in
    let p = length-append w (joined chunks ++ x ∷ xs) in
    let q = length-append (joined chunks) (x ∷ xs) in
    let (c', y, t) = read_on-Holds n d1 all g (omega (arith, p, q, m, r)) in
    (
      c',
      ap (λ o. go_on (read_on n) coro (o then_do feed resumes (chunks ++ (x ∷ xs) ∷ []))) s
          ∙ ap (go_on (read_on n) coro)
              (after_silent c1 (feed resumes (chunks ++ (x ∷ xs) ∷ [])) ∙ e)
          ∙ go_on-call (read_on n) coro d1
          ∙ y,
      t,
    )
