-- ===== src/Grpc/Calls/Kept.antt =====
-- What each step of a server of src/small_server keeps.
use sheep_cpp.Base.{
  ℕ, suc, ◌<◌, ◌≡◌, ◌≢◌, sym, subst, ◌∙◌, inl, inr, Bool, true, false, List, [], ◌∷◌, ◌++◌, set_at,
  same_or_not, In, In-ne, In-without, Distinct, Distinct-middle, Distinct-snoc, Distinct-without,
  without, ErrMsg, arith,
}
use sheep_cpp.Grpc.{GrpcServer}
use sheep_cpp.Grpc.Calls.{
  told, Called, Inv, In-snoc, In-snoc_old, In-snoc_new, In-left, In-here, In-whole, map-snoc,
}

module _ (us vs : List ℕ) (i : ℕ) (ok : Bool) (s : GrpcServer) (given : List ℕ) (v : Inv (s, given))
    (q : s.pending ≡ us ++ i ∷ vs) where
  left-Distinct : Distinct (us ++ vs) × (¬ In i (us ++ vs))
  left-Distinct = Distinct-middle i us vs (subst Distinct q v.once_queued)

  -- The last event of a call: its events are deleted.
  pub last-Inv :
      Called s i → Inv (record s { alive = set_at i false s.alive; pending = us ++ vs }, given)
  last-Inv (a, p, f) =
      let (d, o) = left-Distinct in
      let ne : v.waiting ≢ i = λ e. let (x, y, z) = v.waits in ground (arith, e, p, y) in
      record {
        waiting = v.waiting;
        waits = let (x, y, z) = v.waits in (ground (arith, ne, x), y, z);
        in_queue = In-left v.waiting i us vs (subst (In v.waiting) q v.in_queue) ne;
        queued = λ j h.
            let n = In-ne (us ++ vs) h o in
            let r = v.queued j (subst (In j) (sym q) (In-whole j i us vs h)) in
            elim r [ inl e ↦ inl e | inr (x, y, z) ↦ inr (ground (arith, n, x), y, z) ];
        answerable = λ j h.
            let ((x, y, z), k) = v.answerable j h in
            let n : j ≢ i = λ e.
              k (
                subst (In j) (sym q)
                  (subst (λ c. In c (us ++ i ∷ vs)) (sym e) (In-here i us vs))) in
            ((ground (arith, n, x), y, z), λ m. k (subst (In j) (sym q) (In-whole j i us vs m)));
        once_queued = d;
        once_given = v.once_given;
        below = λ j h. v.below j (ground (arith, h));
        kept = λ j h.
            let n : j ≢ i = λ e. let b = e in ground (arith, h, b) in
            elim (v.kept j (ground (arith, h, n))) [
              | inl m ↦ inl (In-left j i us vs (subst (In j) q m) n)
              | inr m ↦ inr m
            ];
        before = v.before;
        once_told = v.once_told;
      }

  -- The request of a call: the next call waits for its own.
  abbrev pub first_call : ErrMsg → GrpcServer
  first_call e = record s {
    made = suc s.made;
    alive = set_at s.made true s.alive;
    processing = set_at s.made false (set_at i true s.processing);
    finishing = set_at i true (set_at s.made false s.finishing);
    pending = (us ++ vs) ++ s.made ∷ [];
    messages = s.messages ++ (i, e) ∷ [];
  }

  pub alive_queued : (j : ℕ) → In j s.pending → s.alive j ≡ true
  alive_queued j h = elim (v.queued j h) [
    | inl e ↦ subst (λ z. s.alive z ≡ true) (sym e) v.waits.0
    | inr c ↦ c.0
  ]

  pub first-Inv : (e : ErrMsg) → v.waiting ≡ i → Inv (first_call e, i ∷ given)
  first-Inv e c =
      let (d, o) = left-Distinct in
      let (a, p, f) =
        subst (λ z. (s.alive z ≡ true) × (s.processing z ≡ false) × (s.finishing z ≡ false)) c
          v.waits in
      let lt = v.below i a in
      let old : (j : ℕ) → In j (us ++ vs) → (j < s.made) × (j ≢ i) × Called s j = λ j h.
        let m = subst (In j) (sym q) (In-whole j i us vs h) in
        let n = In-ne (us ++ vs) h o in
        (
          v.below j (alive_queued j m),
          n,
          elim (v.queued j m) [ inl k ↦ absurd (n (k ∙ c)) | inr k ↦ k ],
        ) in
      let untold : ¬ In i (told s) = λ h. let (x, y) = v.before i h in ground (arith, y, f) in
      record {
        waiting = s.made;
        waits = (ground arith, ground arith, ground (arith, lt));
        in_queue = In-snoc_new s.made (us ++ vs);
        queued = λ j h. elim (In-snoc j s.made (us ++ vs) h) [
          | inl m ↦
              let (l, n, (x, y, z)) = old j m in
              inr (ground (arith, l, x), ground (arith, l, y), ground (arith, l, z))
          | inr k ↦ inl k
        ];
        answerable = λ j h. elim h [
          | inl k ↦ (
            (ground (arith, k, lt, a), ground (arith, k, lt), ground (arith, k)),
            λ m. elim (In-snoc j s.made (us ++ vs) m) [
              | inl z ↦ (old j z).1 k
              | inr z ↦ omega (arith, k, z, lt)
            ],
          )
          | inr m ↦
              let ((x, y, z), out) = v.answerable j m in
              let l = v.below j x in
              (
                (ground (arith, l, x), ground (arith, l, y), ground (arith, l, z)),
                λ r. elim (In-snoc j s.made (us ++ vs) r) [
                  | inl n ↦ out (subst (In j) (sym q) (In-whole j i us vs n))
                  | inr n ↦ omega (arith, l, n)
                ],
              )
        ];
        once_queued =
            Distinct-snoc (us ++ vs) s.made d (λ h. let l = (old s.made h).0 in omega (arith, l));
        once_given =
            (λ h. let ((x, y, z), k) = v.answerable i h in ground (arith, y, p), v.once_given);
        below = λ j h. elim (same_or_not j s.made) [
          | inl k ↦ omega (arith, k)
          | inr n ↦ let l = v.below j (ground (arith, h, n)) in omega (arith, l)
        ];
        kept = λ j h. elim (same_or_not j s.made) [
          | inl k ↦ inl (
              subst (λ z. In z ((us ++ vs) ++ s.made ∷ [])) (sym k) (In-snoc_new s.made (us ++ vs)))
          | inr n ↦ elim (same_or_not j i) [
            | inl k ↦ inr (inl k)
            | inr o1 ↦ elim (v.kept j (ground (arith, h, n))) [
              | inl m ↦
                  inl (In-snoc_old j s.made (us ++ vs) (In-left j i us vs (subst (In j) q m) o1))
              | inr m ↦ inr (inr m)
            ]
          ]
        ];
        before = λ j h. elim (In-snoc j i (told s) (subst (In j) (map-snoc s.messages (i, e)) h)) [
          | inl m ↦ let (l, z) = v.before j m in (omega (arith, l), ground (arith, l, z))
          | inr k ↦ (omega (arith, k, lt), ground (arith, k))
        ];
        once_told =
            subst Distinct (sym (map-snoc s.messages (i, e)))
              (Distinct-snoc (told s) i v.once_told untold);
      }

module _ (s : GrpcServer) (given : List ℕ) (v : Inv (s, given)) where
  -- Finish of a call that has its request and no answer yet.
  pub finish-Inv :
      (i : ℕ)
      → In i given
      → Inv (
        record s { finishing = set_at i true s.finishing; pending = s.pending ++ i ∷ [] },
        without i given,
      )
  finish-Inv i g =
      let ((a, p, f), o) = v.answerable i g in
      record {
        waiting = v.waiting;
        waits =
            let (x, y, z) = v.waits in
            let n : v.waiting ≢ i = λ e. ground (arith, e, p, y) in (x, y, ground (arith, n, z));
        in_queue = In-snoc_old v.waiting i s.pending v.in_queue;
        queued = λ j h. elim (In-snoc j i s.pending h) [
          | inl m ↦ elim (v.queued j m) [
            | inl e ↦ inl e
            | inr (x, y, z) ↦ inr (x, y, ground (arith, z))
          ]
          | inr e ↦ inr (ground (arith, e, a), ground (arith, e, p), ground (arith, e))
        ];
        answerable = λ j h.
            let (m, n) = (In-without j i given).0 h in
            let ((x, y, z), k) = v.answerable j m in
            (
              (x, y, ground (arith, z)),
              λ r. elim (In-snoc j i s.pending r) [ inl w ↦ k w | inr w ↦ n w ],
            );
        once_queued = Distinct-snoc s.pending i v.once_queued o;
        once_given = Distinct-without i given v.once_given;
        below = v.below;
        kept = λ j h. elim (v.kept j h) [
          | inl m ↦ inl (In-snoc_old j i s.pending m)
          | inr m ↦ elim (same_or_not j i) [
            | inl e ↦
                inl (subst (λ z. In z (s.pending ++ i ∷ [])) (sym e) (In-snoc_new i s.pending))
            | inr n ↦ inr ((In-without j i given).1 (m, n))
          ]
        ];
        before = λ j h. let (l, z) = v.before j h in (l, ground (arith, z));
        once_told = v.once_told;
      }
