-- ===== src/Grpc/Calls/Once.antt =====
-- What holds of a server of src/small_server in every state that it reaches.
use sheep_cpp.Base.{
  ℕ, ◌≡◌, ◌⊎◌, refl, sym, subst, ◌∙◌, inl, inr, Bool, true, false, some, List, [], ◌∷◌, ◌++◌,
  if◌then◌else◌, ◌==◌, set_at, In, In-append, Distinct, empty, says, arith,
}
use sheep_cpp.Grpc.{
  GrpcServer, create_event, service_proceed, server_proceed, proceed, finish, World, ◌⟶◌, comes,
  finishes, Reached, runs, next,
}
use sheep_cpp.Grpc.Calls.{told, Called, Inv, run-Inv}
use sheep_cpp.Grpc.Calls.Kept.{last-Inv, first_call, first-Inv, finish-Inv}

module _ (us vs : List ℕ) (i : ℕ) (ok : Bool) (s : GrpcServer) (given : List ℕ) (v : Inv (s, given))
    (q : s.pending ≡ us ++ i ∷ vs) where
  proceed_last :
      Called s i
      → proceed i ok (record s { pending = us ++ vs })
        ≡ some (record s { alive = set_at i false s.alive; pending = us ++ vs })
  unfolding proceed server_proceed service_proceed
  proceed_last (a, p, f) = rw (a, p, f) refl

  proceed_first :
      v.waiting ≡ i
      → proceed i ok (record s { pending = us ++ vs })
        ≡ some (first_call us vs i ok s given v q (if ok then empty else says "canceled"))
  unfolding proceed server_proceed service_proceed create_event
  proceed_first c =
      let (a, p, f) =
        subst (λ z. (s.alive z ≡ true) × (s.processing z ≡ false) × (s.finishing z ≡ false)) c
          v.waits in
      let lt = v.below i a in
      let n : (i == s.made) ≡ false = ground (arith, lt) in rw (a, p, n, f) refl

some_eq : {s t : GrpcServer} → some s ≡ some t → s ≡ t
some_eq e = cc

Inv-eq : {s t : GrpcServer} {g h : List ℕ} → s ≡ t → g ≡ h → Inv (s, g) → Inv (t, h)
Inv-eq {t = t} {g = g} e f v = subst (λ z. Inv (t, z)) f (subst (λ z. Inv (z, g)) e v)

if_not : (f : ℕ → Bool) (i : ℕ) (g : List ℕ) → f i ≡ false → i ∷ g ≡ (if f i then g else i ∷ g)
if_not f i g e = rw e refl

if_so : (f : ℕ → Bool) (i : ℕ) (g : List ℕ) → f i ≡ true → g ≡ (if f i then g else i ∷ g)
if_so f i g e = rw e refl

finish_given :
    (s : GrpcServer) (given : List ℕ) (v : Inv (s, given)) (i : ℕ)
    → In i given
    → finish i s
      ≡ some (record s { finishing = set_at i true s.finishing; pending = s.pending ++ i ∷ [] })
unfolding finish
finish_given s given v i g = rw (v.answerable i g).0.0 refl

step-Inv : (w z : World) → w ⟶ z → Inv w → Inv z
unfolding finish
step-Inv w z (comes {s} {t} {given} us vs i ok q e) v =
    elim (v.queued i (subst (In i) (sym q) ((In-append i us (i ∷ vs)).1 (inr (inl refl))))) [
      | inl c ↦
          let m = if ok then empty else says "canceled" in
          let k = some_eq (sym (proceed_first us vs i ok s given v q (sym c)) ∙ e) in
          let f = subst (λ j. s.finishing j ≡ false) (sym c) v.waits.2 in
          Inv-eq k (if_not s.finishing i given f) (first-Inv us vs i ok s given v q m (sym c))
      | inr c ↦
          let k = some_eq (sym (proceed_last us vs i ok s given v q c) ∙ e) in
          Inv-eq k (if_so s.finishing i given c.2) (last-Inv us vs i ok s given v q c)
    ]
step-Inv w z (finishes {s} {t} {given} i g e) v =
    let k = some_eq (sym (finish_given s given v i g) ∙ e) in
    Inv-eq k refl (finish-Inv s given v i g)

pub Reached-Inv : (w : World) → Reached w → Inv w
Reached-Inv w runs = run-Inv
Reached-Inv w (next {v = u} r x) = step-Inv u w x (Reached-Inv u r)

-- In every state that a server of one service reaches, where Next gives any of the tags in the
-- queue, ok or not, and the service finishes each call that it got once, at any time: no tag in
-- the queue is one of a deleted event, and no call to finish has a deleted event; exactly one
-- call in the queue waits for its request; OnMessage has been called at most once for each call;
-- and the events of a call that exist are waited for by a tag or by the service, so none is left
-- over.
pub calls_once :
    (w : World)
    → Reached w
    → ((i : ℕ) → In i w.0.pending ⊎ In i w.1 → w.0.alive i ≡ true)
      × ((c : ℕ) × In c w.0.pending
          × (w.0.processing c ≡ false)
          × ((i : ℕ) → In i w.0.pending → w.0.processing i ≡ false → i ≡ c))
      × Distinct (told w.0)
      × ((i : ℕ) → w.0.alive i ≡ true → In i w.0.pending ⊎ In i w.1)
calls_once (s, given) r =
    let v = Reached-Inv (s, given) r in
    (
      λ i h. elim h [
        | inl m ↦ elim (v.queued i m) [
          | inl e ↦ subst (λ z. s.alive z ≡ true) (sym e) v.waits.0
          | inr c ↦ c.0
        ]
        | inr m ↦ (v.answerable i m).0.0
      ],
      (
        v.waiting,
        v.in_queue,
        v.waits.1,
        λ i m p. elim (v.queued i m) [ inl e ↦ e | inr (a, b, c) ↦ absurd (ground (arith, b, p)) ],
      ),
      v.once_told,
      v.kept,
    )
