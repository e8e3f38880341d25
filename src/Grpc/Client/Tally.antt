-- ===== src/Grpc/Client/Tally.antt =====
-- What requests of src/small_server/grpc_client.h keep, and how many there are of a client.
use sheep_cpp.Base.{
  ℕ, suc, ◌+◌, ◌<◌, ◌≡◌, ◌≢◌, ◌⊎◌, refl, sym, ap, subst, inl, inr, Bool, true, false, none, some,
  List, [], ◌∷◌, ◌++◌, if◌then◌else◌, ◌==◌, set_at, same_or_not, In, Distinct, Distinct-snoc, says,
  arith,
}
use sheep_cpp.Grpc.Calls.{In-snoc, In-snoc_old, In-snoc_new}
use sheep_cpp.Grpc.Client.{GrpcClients, no_requests, do_req, do_all, Fresh, asked_by, World}

-- How many of a list have this key.
abbrev pub count : {A : Type 0} → (A → ℕ) → ℕ → List A → ℕ
count key c [] = 0
count key c (x ∷ xs) = let rest = count key c xs in if key x == c then suc rest else rest

pub count-append :
    {A : Type 0} (key : A → ℕ) (c : ℕ) (xs ys : List A)
    → count key c (xs ++ ys) ≡ count key c xs + count key c ys
count-append key c [] ys = omega arith
count-append key c (x ∷ xs) ys = let ih = count-append key c xs ys in ground (arith, ih)

-- Taking one out leaves the rest.
pub count-middle :
    {A : Type 0} (key : A → ℕ) (c : ℕ) (us vs : List A) (x : A)
    → count key c (us ++ x ∷ vs) ≡ count key c (us ++ vs) + count key c (x ∷ [])
count-middle key c us vs x =
    let a = count-append key c us (x ∷ vs) in
    let b = count-append key c us vs in ground (arith, a, b)

-- A new event is no event of the queue.
count-set_at :
    (o : ℕ → ℕ) (m d c : ℕ) (xs : List ℕ)
    → ((i : ℕ) → In i xs → i < m)
    → count (set_at m d o) c xs ≡ count o c xs
count-set_at o m d c [] h = refl
count-set_at o m d c (x ∷ xs) h =
    let ih = count-set_at o m d c xs (λ i k. h i (inr k)) in
    let l = h x (inl refl) in ground (arith, ih, l)

abbrev pub IsOf : GrpcClients → ℕ → Type 0
IsOf s i = (s.alive i ≡ true) × (s.event (s.owner i) ≡ some i)

-- While the tags of `taken` are worked on.
pub record Inv (taken : List ℕ) (w : World) : Type 0 where
  pub queued : (i : ℕ) → In i w.0.pending → IsOf w.0 i
  pub held : (i : ℕ) → In i taken → IsOf w.0 i × (¬ In i w.0.pending)
  pub once_queued : Distinct w.0.pending
  pub below : (i : ℕ) → w.0.alive i ≡ true → i < w.0.made
  pub kept : (i : ℕ) → w.0.alive i ≡ true → In i w.0.pending ⊎ In i taken
  pub tally :
      (c : ℕ)
      → count (λ x. x) c w.1 ≡ count (λ m. m.0) c w.0.answers + count w.0.owner c w.0.pending

pub no_requests-Inv : Inv [] (no_requests, [])
unfolding no_requests
no_requests-Inv = record {
  queued = λ i h. absurd h;
  held = λ i h. absurd h;
  once_queued = tt;
  below = λ i h. ground (arith, h);
  kept = λ i h. ground (arith, h);
  tally = λ c. refl;
}

do_req-Inv :
    (taken : List ℕ) (c : ℕ) (ok : Bool) (s : GrpcClients) (asked : List ℕ)
    → s.event c ≡ none
    → Inv taken (s, asked)
    → Inv taken (do_req c ok s, c ∷ asked)
unfolding do_req
do_req-Inv taken c false s asked e v = record {
  queued = v.queued;
  held = v.held;
  once_queued = v.once_queued;
  below = v.below;
  kept = v.kept;
  tally = λ d.
      let a = count-append (λ m. m.0) d s.answers ((c, says "stub is nullptr") ∷ []) in
      let t = v.tally d in ground (arith, a, t);
}
do_req-Inv taken c true s asked e v =
    let old : (i : ℕ) → IsOf s i → (i < s.made) × IsOf (do_req c true s) i = λ i (a, b).
      let l = v.below i a in
      let n : s.owner i ≢ c = λ k. let z = ap s.event k in ground (arith, b, e, z) in
      (l, (ground (arith, l, a), ground (arith, l, n, b))) in
    record {
      queued = λ i h. elim (In-snoc i s.made s.pending h) [
        | inl m ↦ (old i (v.queued i m)).1
        | inr k ↦ (ground (arith, k), ground (arith, k))
      ];
      held = λ i h.
          let (o, n) = v.held i h in
          let (l, o1) = old i o in
          (
            o1,
            λ m. elim (In-snoc i s.made s.pending m) [ inl x ↦ n x | inr k ↦ omega (arith, l, k) ],
          );
      once_queued =
          Distinct-snoc s.pending s.made v.once_queued
            (λ h. let l = (old s.made (v.queued s.made h)).0 in omega (arith, l));
      below = λ i h. elim (same_or_not i s.made) [
        | inl k ↦ omega (arith, k)
        | inr n ↦ let l = v.below i (ground (arith, h, n)) in omega (arith, l)
      ];
      kept = λ i h. elim (same_or_not i s.made) [
        | inl k ↦
            inl
              (subst (λ z. In z (s.pending ++ s.made ∷ [])) (sym k) (In-snoc_new s.made s.pending))
        | inr n ↦ elim (v.kept i (ground (arith, h, n))) [
          | inl m ↦ inl (In-snoc_old i s.made s.pending m)
          | inr m ↦ inr m
        ]
      ];
      tally = λ d.
          let o1 = set_at s.made c s.owner in
          let a = count-append o1 d s.pending (s.made ∷ []) in
          let b = count-set_at s.owner s.made c d s.pending (λ i h. (old i (v.queued i h)).0) in
          let t = v.tally d in ground (arith, a, b, t);
    }

pub do_all-Inv :
    (taken : List ℕ) (calls : List (ℕ × Bool)) (s : GrpcClients) (asked : List ℕ)
    → Fresh calls s
    → Inv taken (s, asked)
    → Inv taken (do_all calls s, asked_by calls asked)
unfolding do_all
do_all-Inv taken [] s asked h v = v
do_all-Inv taken ((c, ok) ∷ cs) s asked (e, h) v =
    do_all-Inv taken cs (do_req c ok s) (c ∷ asked) h (do_req-Inv taken c ok s asked e v)

-- A client that has an event keeps it.
pub event-do_all :
    (c i : ℕ) (calls : List (ℕ × Bool)) (s : GrpcClients)
    → Fresh calls s
    → s.event c ≡ some i
    → (do_all calls s).event c ≡ some i
unfolding do_all do_req
event-do_all c i [] s h e = e
event-do_all c i ((d, false) ∷ cs) s (f, h) e = event-do_all c i cs (do_req d false s) h e
event-do_all c i ((d, true) ∷ cs) s (f, h) e =
    let n : c ≢ d = λ k. let z = ap s.event k in ground (arith, e, f, z) in
    event-do_all c i cs (do_req d true s) h (ground (arith, n, e))
