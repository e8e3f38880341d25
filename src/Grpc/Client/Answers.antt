-- ===== src/Grpc/Client/Answers.antt =====
-- What happens to the requests of src/small_server/grpc_client.h.
use sheep_cpp.Base.{
  ℕ, ◌+◌, ◌<◌, ◌≡◌, ◌≢◌, refl, sym, ap, subst, ◌∙◌, inl, inr, Bool, true, false, ◌&&◌, some, List,
  [], ◌∷◌, ◌++◌, if◌then◌else◌, ◌==◌, set_at, same_or_not, In, In-ne, Distinct, Distinct-middle,
  ErrMsg, empty, says, arith,
}
use sheep_cpp.Grpc.Calls.{In-snoc_new, In-left, In-here, In-whole}
use sheep_cpp.Grpc.Client.{
  GrpcClients, do_req, do_all, answer, clean, client_proceed, proceed, Fresh, asked_by, World, told,
  asks, comes, Reached, starts, next,
}
use sheep_cpp.Grpc.Client.Tally.{
  count, count-append, count-middle, IsOf, Inv, no_requests-Inv, do_all-Inv, event-do_all,
}

module _ (us vs : List ℕ) (i : ℕ) (ok status : Bool) (calls : List (ℕ × Bool)) (s : GrpcClients)
    (asked : List ℕ) (v : Inv [] (s, asked)) (q : s.pending ≡ us ++ i ∷ vs)
    (fresh : Fresh calls (told i ok status (us ++ vs) s)) where
  own : IsOf s i
  own = v.queued i (subst (In i) (sym q) (In-here i us vs))

  told-Inv : Inv (i ∷ []) (told i ok status (us ++ vs) s, asked)
  unfolding answer
  told-Inv =
      let (d, out) = Distinct-middle i us vs (subst Distinct q v.once_queued) in
      record {
        queued = λ j h. v.queued j (subst (In j) (sym q) (In-whole j i us vs h));
        held = λ j h. elim h [
          | inl e ↦ (subst (IsOf s) (sym e) own, λ m. out (subst (λ z. In z (us ++ vs)) e m))
          | inr k ↦ absurd k
        ];
        once_queued = d;
        below = v.below;
        kept = λ j h. elim (v.kept j h) [
          | inl m ↦ elim (same_or_not j i) [
            | inl e ↦ inr (inl e)
            | inr n ↦ inl (In-left j i us vs (subst (In j) q m) n)
          ]
          | inr k ↦ absurd k
        ];
        tally = λ c.
            let m : ℕ × ErrMsg =
              (s.owner i, if ok && status then empty else says "Grpc Client failed") in
            let a = count-append (λ z. z.0) c s.answers (m ∷ []) in
            let b = count-middle s.owner c us vs i in
            let t = v.tally c ∙ ap (λ p. count (λ z. z.0) c s.answers + count s.owner c p) q in
            ground (arith, a, b, t);
      }

  abbrev after : GrpcClients
  after = do_all calls (told i ok status (us ++ vs) s)

  after-Inv : Inv (i ∷ []) (after, asked_by calls asked)
  after-Inv = do_all-Inv (i ∷ []) calls (told i ok status (us ++ vs) s) asked fresh told-Inv

  -- No deleted event is used, and the one that is deleted is that of the tag.
  proceeds :
      proceed i ok status calls (record s { pending = us ++ vs })
      ≡ some (record after { alive = set_at i false after.alive })
  unfolding proceed client_proceed clean answer
  proceeds =
      let e = event-do_all (s.owner i) i calls (told i ok status (us ++ vs) s) fresh own.1 in
      let a = (after-Inv.held i (inl refl)).0.0 in rw (own.0, e, a) refl

  proceed-Inv : Inv [] (record after { alive = set_at i false after.alive }, asked_by calls asked)
  proceed-Inv =
      let v1 = after-Inv in
      let out = (v1.held i (inl refl)).1 in
      record {
        queued = λ j h.
            let n = In-ne after.pending h out in
            let (a, b) = v1.queued j h in (ground (arith, n, a), b);
        held = λ j h. absurd h;
        once_queued = v1.once_queued;
        below = λ j h. v1.below j (ground (arith, h));
        kept = λ j h.
            let n : j ≢ i = λ e. let b = e in ground (arith, h, b) in
            elim (v1.kept j (ground (arith, h, n))) [
              | inl m ↦ inl m
              | inr m ↦ elim m [ inl e ↦ absurd (n e) | inr k ↦ absurd k ]
            ];
        tally = v1.tally;
      }

some_eq : {s t : GrpcClients} → some s ≡ some t → s ≡ t
some_eq e = cc

Reached-Inv : (w : World) → Reached w → Inv [] w
Reached-Inv w starts = no_requests-Inv
Reached-Inv w (next r (asks {s} {asked} calls f)) =
    do_all-Inv [] calls s asked f (Reached-Inv (s, asked) r)
Reached-Inv w (next r (comes {s} {t} {asked} us vs i ok status calls q f e)) =
    let v = Reached-Inv (s, asked) r in
    let k = some_eq (sym (proceeds us vs i ok status calls s asked v q f) ∙ e) in
    subst (λ z. Inv [] (z, asked_by calls asked)) k
      (proceed-Inv us vs i ok status calls s asked v q f)

-- In every state that clients on one looper reach, where anybody makes requests at any time,
-- callbacks included, of clients that have started no call yet, and Next gives any of the tags in
-- the queue, with any result: whichever tag comes next, and whichever requests of such clients
-- its callback makes, its Proceed comes to its end without the use of a deleted event; each event
-- that exists has its tag in the queue; and the callbacks of each client have been called as
-- often as it was asked, less the tags of its calls that are in the queue.
pub requests_answered :
    (w : World)
    → Reached w
    → ((us vs : List ℕ) (i : ℕ) (ok status : Bool) (calls : List (ℕ × Bool))
        → w.0.pending ≡ us ++ i ∷ vs
        → Fresh calls (told i ok status (us ++ vs) w.0)
        → (t : GrpcClients) × (proceed i ok status calls (record w.0 { pending = us ++ vs })
            ≡ some t))
      × ((i : ℕ) → w.0.alive i ≡ true → In i w.0.pending)
      × ((c : ℕ)
          → count (λ x. x) c w.1 ≡ count (λ m. m.0) c w.0.answers + count w.0.owner c w.0.pending)
requests_answered (s, asked) r =
    let v = Reached-Inv (s, asked) r in
    (
      λ us vs i ok status calls q f. (_, proceeds us vs i ok status calls s asked v q f),
      λ i h. elim (v.kept i h) [ inl m ↦ m | inr k ↦ absurd k ],
      v.tally,
    )

-- A callback that makes its request again, on the same client: Proceed then deletes the new event,
-- whose tag is in the queue, and the one of the tag that came is left over.
retried :
    (s : GrpcClients) (i : ℕ) (ok status : Bool)
    → IsOf s i
    → i < s.made
    → (t : GrpcClients) × (proceed i ok status ((s.owner i, true) ∷ []) s ≡ some t)
      × In s.made t.pending
      × (t.alive s.made ≡ false)
      × (t.alive i ≡ true)
unfolding proceed client_proceed clean answer do_all do_req
retried s i ok status (a, e) l =
    let live = set_at s.made true s.alive in
    let here : (s.owner i == s.owner i) ≡ true = ground arith in
    let made : (s.made == s.made) ≡ true = ground arith in
    (
      record (do_req (s.owner i) true (answer (s.owner i) ok status s)) {
        alive = set_at s.made false live;
      },
      rw (a, here, made) refl,
      In-snoc_new s.made s.pending,
      ground arith,
      ground (arith, l, a),
    )
