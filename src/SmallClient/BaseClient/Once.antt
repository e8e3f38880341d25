-- ===== src/SmallClient/BaseClient/Once.antt =====
-- How a request of src/small_client/base_client.h ends.
use sheep_cpp.Base.{
  ℕ, ◌≡◌, ◌⊎◌, refl, inl, inr, Bool, true, false, Option, none, some, List, [], ◌∷◌, ◌++◌,
  if◌then◌else◌, ErrMsg, empty, says, is_empty, Bool-cases, arith,
}
use sheep_cpp.SmallClient.BaseClient.{
  BaseClient, make_base_client, Output, on_done, given_back, Acted, finish, do_req, on_timer,
  on_written, on_read, Event, timed, written, read, step, run, request,
}

-- Nothing if the request was finished; else nothing yet, or its end.
abbrev pub Says : ℕ → Bool → Acted → Type 0
Says id true (c, out) = (c.finished ≡ true) × (out ≡ [])
Says id false (c, out) =
    ((c.finished ≡ false) × (out ≡ []))
    ⊎ ((c.finished ≡ true) × ((e : ErrMsg) × (out ≡ on_done e ∷ given_back id e ∷ [])))

-- A result with the client still there.
abbrev pub Goes : ℕ → Bool → Option Acted → Type 0
Goes id b o = (r : Acted) × (o ≡ some r) × (r.0.client ≡ some id) × Says id b r

-- A request on a client, finished or not.
abbrev pub On : ℕ → Bool → BaseClient → Type 0
On id b c = (c.client ≡ some id) × (c.finished ≡ b)

silent-Goes : (id : ℕ) (b : Bool) (c : BaseClient) → On id b c → Goes id b (some (c, []))
silent-Goes id true c (e, f) = ((c, []), refl, e, (f, refl))
silent-Goes id false c (e, f) = ((c, []), refl, e, inl (f, refl))

finish_again : (e : ErrMsg) (c : BaseClient) → c.finished ≡ true → finish e c ≡ some (c, [])
unfolding finish
finish_again e c g = ground (arith, g)

finish_first :
    (id : ℕ) (e : ErrMsg) (c : BaseClient)
    → On id false c
    → finish e c ≡ some (record c { finished = true }, on_done e ∷ given_back id e ∷ [])
unfolding finish
finish_first id e c (f, g) = ground (arith, f, g)

finish-Goes : (id : ℕ) (b : Bool) (e : ErrMsg) (c : BaseClient) → On id b c → Goes id b (finish e c)
finish-Goes id true e c (f, g) = rw (finish_again e c g) (silent-Goes id true c (f, g))
finish-Goes id false e c (f, g) =
    rw (finish_first id e c (f, g)) (_, refl, f, inr (refl, (e, refl)))

on_timer-Goes :
    (id : ℕ) (b : Bool) (e : ErrMsg) (c : BaseClient) → On id b c → Goes id b (on_timer e c)
unfolding on_timer
on_timer-Goes id b e c v = elim (Bool-cases (is_empty e)) [
  | inl t ↦ rw t (finish-Goes id b (says "timeout") (record c { timeout_set = false }) v)
  | inr t ↦ rw t (silent-Goes id b (record c { timeout_set = false }) v)
]

on_written-Goes :
    (id : ℕ) (b : Bool) (e : ErrMsg) (c : BaseClient) → On id b c → Goes id b (on_written e c)
unfolding on_written
on_written-Goes id b e c v = elim (Bool-cases (is_empty e)) [
  | inl t ↦ rw t (silent-Goes id b (record c { read_set = true }) v)
  | inr t ↦ rw t (finish-Goes id b e c v)
]

on_read-Goes :
    (id : ℕ) (b : Bool) (e popped : ErrMsg) (complete : Bool) (c : BaseClient)
    → On id b c
    → Goes id b (on_read e popped complete c)
unfolding on_read
on_read-Goes id b e popped complete c v =
    let c' : BaseClient = record c { timeout_set = false } in
    elim (Bool-cases (is_empty e)) [
      | inr t ↦ rw t (finish-Goes id b e c' v)
      | inl t ↦ elim (Bool-cases (is_empty popped)) [
        | inr f ↦ rw (t, f) (finish-Goes id b popped c' v)
        | inl f ↦ elim (Bool-cases complete) [
          | inl g ↦ rw (t, f, g) (finish-Goes id b empty c' v)
          | inr g ↦ rw (t, f, g) (silent-Goes id b c' v)
        ]
      ]
    ]

if-Goes :
    (id : ℕ) (b test : Bool) (x y : Option Acted)
    → Goes id b x
    → Goes id b y
    → Goes id b (if test then x else y)
if-Goes id b true x y v w = v
if-Goes id b false x y v w = w

step-Goes : (id : ℕ) (b : Bool) (ev : Event) (c : BaseClient) → On id b c → Goes id b (step ev c)
unfolding step
step-Goes id b (timed e) c v =
    if-Goes id b c.timeout_set _ _ (on_timer-Goes id b e c v) (silent-Goes id b c v)
step-Goes id b (written e) c v =
    if-Goes id b c.write_set _ _ (on_written-Goes id b e c v) (silent-Goes id b c v)
step-Goes id b (read e popped complete) c v =
    if-Goes id b c.read_set _ _ (on_read-Goes id b e popped complete c v) (silent-Goes id b c v)

-- What follows a first part of a request.
and_then-Goes :
    (id : ℕ) (b : Bool) (evs : List Event) (c : BaseClient) (out : List Output)
    → c.client ≡ some id
    → Says id b (c, out)
    → ((b' : Bool) → On id b' c → Goes id b' (run evs c))
    → Goes id b (elim (run evs c) [ none ↦ none | some (d, more) ↦ some (d, out ++ more) ])
and_then-Goes id true evs c out e (f, g) k =
    let (r, q, m, (n, o)) = k true (e, f) in rw q (_, refl, m, (n, rw (g, o) refl))
and_then-Goes id false evs c out e (inl (f, g)) k =
    let (r, q, m, p) = k false (e, f) in
    rw q (
      _,
      refl,
      m,
      elim p [
        | inl (n, o) ↦ inl (n, rw (g, o) refl)
        | inr (n, (x, o)) ↦ inr (n, (x, rw (g, o) refl))
      ],
    )
and_then-Goes id false evs c out e (inr (f, (x, g))) k =
    let (r, q, m, (n, o)) = k true (e, f) in rw q (_, refl, m, inr (n, (x, rw (g, o) refl)))

run-Goes :
    (id : ℕ) (evs : List Event) (b : Bool) (c : BaseClient) → On id b c → Goes id b (run evs c)
unfolding run
run-Goes id [] b c v = silent-Goes id b c v
run-Goes id (ev ∷ evs) b c v =
    let ((d, out), q, m, p) = step-Goes id b ev c v in
    rw (run, q) (and_then-Goes id b evs d out m p (λ b' w. run-Goes id evs b' d w))

do_req-Goes :
    (id timeout_ms : ℕ) (pushed : ErrMsg)
    → Goes id false (do_req true (some id) pushed (make_base_client timeout_ms))
unfolding do_req make_base_client
do_req-Goes id timeout_ms pushed = elim (Bool-cases (is_empty pushed)) [
  | inl t ↦ rw t (_, refl, refl, inl (refl, refl))
  | inr t ↦ rw t (
      finish-Goes id false pushed (record (make_base_client timeout_ms) { client = some id })
        (refl, refl))
]

-- A request for which the pool gives the client id does not crash, whatever ReqPush and RespPop
-- say and in whatever order the callbacks of the timer, of the write and of the read come: either
-- it is not finished and onDone was not called, or it is finished, onDone was called exactly
-- once, and then the client was given back exactly once, with the same error.
pub request_once :
    (id timeout_ms : ℕ) (pushed : ErrMsg) (evs : List Event)
    → Goes id false (request timeout_ms true (some id) pushed evs)
unfolding request
request_once id timeout_ms pushed evs =
    let ((d, out), q, m, p) = do_req-Goes id timeout_ms pushed in
    rw (request, q) (and_then-Goes id false evs d out m p (λ b' w. run-Goes id evs b' d w))
