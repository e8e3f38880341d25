-- ===== src/Net/Server/Balance.antt =====
-- What one connection of src/net/server/server.cpp changes, and that its calls make up for it.
use sheep_cpp.Base.{
  ℕ, ◌+◌, ◌<◌, ◌≡◌, ◌≢◌, ◌⊎◌, refl, sym, ap, subst, inl, inr, true, false, some, List, [], ◌∷◌,
  ◌==◌, ErrMsg, is_empty, In, Distinct, length, without, In-without, Distinct-without,
  length-without_of_In, without-eq_of_not_In, Bool-cases, arith,
}
use sheep_cpp.Net.Asyncer.{called_if_set}
use sheep_cpp.Net.Server.{welcome, on_finish}
use sheep_cpp.Net.Server.Visits.{
  World, contains, Stepped, came, came_ended, heard, heard-append, heard_self, heard_other,
}

pub contains-In : (x : ℕ) (xs : List ℕ) → contains x xs ≡ true → In x xs
contains-In x [] e = absurd (ground arith)
contains-In x (y ∷ ys) e = elim (Bool-cases (y == x)) [
  | inl t ↦ inl (ground (arith, t))
  | inr t ↦ inr (contains-In x ys (ground (arith, e, t)))
]

not_contains : (x : ℕ) (xs : List ℕ) → ¬ In x xs → contains x xs ≡ false
not_contains x xs n = elim (Bool-cases (contains x xs)) [
  | inl t ↦ absurd (n (contains-In x xs t))
  | inr t ↦ t
]

-- Two handlers, and what is where.
pub record Kept (h d : ℕ) (w : World) : Type 0 where
  pub connected : w.server.connected_handler ≡ some h
  pub disconnected : w.server.disconnected_handler ≡ some d
  pub once : Distinct w.server.connections
  pub once_live : Distinct w.live
  pub below : (id : ℕ) → In id w.server.connections → id < w.server.next_id
  pub below_live : (id : ℕ) → In id w.live → id < w.server.next_id
  pub held : (id : ℕ) → In id w.server.connections → In id w.live ⊎ In id w.stale
  pub there : (id : ℕ) → In id w.live → In id w.server.connections ⊎ In id w.failed
  pub left : (id : ℕ) → In id w.stale → In id w.server.connections × (¬ In id w.live)

-- Whoever heard of a connection hears of its end, or it is live.
unfoldable pub Balanced : ℕ → ℕ → World → Stepped → Type 0
Balanced h d w (t, calls) =
    Kept h d t × (length t.live + heard d calls ≡ length w.live + heard h calls)

module _ (h d : ℕ) (other : h ≢ d) where
  back : d ≢ h
  back e = other (sym e)

  pub silent-Balanced : (w : World) → Kept h d w → Balanced h d w (w, [])
  unfolding Balanced
  silent-Balanced w v = (v, refl)

  pub welcome-Balanced :
      (e : ErrMsg) (w : World)
      → Kept h d w
      → Balanced h d w (came w.server.next_id w (welcome e w.server))
  unfolding Balanced welcome
  welcome-Balanced e w v =
      let s = w.server in
      let id = s.next_id in
      let a = heard_self h s.connected_handler e v.connected in
      let b = heard_other d h s.connected_handler e other v.connected in
      let new : (id + 1 == id) ≡ false = ground arith in
      let out : ¬ In id s.connections = λ i. let l = v.below id i in omega (arith, l) in
      let out_live : ¬ In id w.live = λ i. let l = v.below_live id i in omega (arith, l) in
      let self : (id == id) ≡ true = ground arith in
      elim (Bool-cases (is_empty e)) [
        | inl t ↦
            rw (t, new, self)
              (
                record {
                  connected = v.connected;
                  disconnected = v.disconnected;
                  once = (out, v.once);
                  once_live = (out_live, v.once_live);
                  below = λ j i. elim i [
                    | inl k ↦ omega (arith, k)
                    | inr k ↦ let l = v.below j k in omega (arith, l)
                  ];
                  below_live = λ j i. elim i [
                    | inl k ↦ omega (arith, k)
                    | inr k ↦ let l = v.below_live j k in omega (arith, l)
                  ];
                  held = λ j i. elim i [
                    | inl k ↦ inl (inl k)
                    | inr k ↦ elim (v.held j k) [ inl m ↦ inl (inr m) | inr m ↦ inr m ]
                  ];
                  there = λ j i. elim i [
                    | inl k ↦ inl (inl k)
                    | inr k ↦ elim (v.there j k) [ inl m ↦ inl (inr m) | inr m ↦ inr m ]
                  ];
                  left = λ j i.
                      let (k, n) = v.left j i in
                      (
                        inr k,
                        λ m. elim m [
                          | inl q ↦ out (subst (λ z. In z s.connections) q k)
                          | inr q ↦ n q
                        ],
                      );
                },
                omega (arith, a, b),
              )
        | inr t ↦
            let no_new = not_contains id s.connections out in
            rw (t, new, no_new)
              (
                record {
                  connected = v.connected;
                  disconnected = v.disconnected;
                  once = v.once;
                  once_live = (out_live, v.once_live);
                  below = λ j i. let l = v.below j i in omega (arith, l);
                  below_live = λ j i. elim i [
                    | inl k ↦ omega (arith, k)
                    | inr k ↦ let l = v.below_live j k in omega (arith, l)
                  ];
                  held = λ j i. elim (v.held j i) [ inl m ↦ inl (inr m) | inr m ↦ inr m ];
                  there = λ j i. elim i [
                    | inl k ↦ inr (inl k)
                    | inr k ↦ elim (v.there j k) [ inl m ↦ inl m | inr m ↦ inr (inr m) ]
                  ];
                  left = λ j i.
                      let (k, n) = v.left j i in
                      (
                        k,
                        λ m. elim m [
                          | inl q ↦ out (subst (λ z. In z s.connections) q k)
                          | inr q ↦ n q
                        ],
                      );
                },
                omega (arith, a, b),
              )
      ]

  -- The finish handler erases nothing, and the connection stays in the set.
  pub ended-Balanced :
      (e f : ErrMsg) (w : World)
      → Kept h d w
      → Balanced h d w (
          came_ended w.server.next_id
            (called_if_set w.server.disconnected_handler f)
            w
            (welcome e w.server))
  unfolding Balanced welcome
  ended-Balanced e f w v =
      let s = w.server in
      let id = s.next_id in
      let more = called_if_set s.disconnected_handler f in
      let calls = called_if_set s.connected_handler e in
      let a = heard_self h s.connected_handler e v.connected in
      let b = heard_other d h s.connected_handler e other v.connected in
      let a1 = heard_self d s.disconnected_handler f v.disconnected in
      let b1 = heard_other h d s.disconnected_handler f back v.disconnected in
      let c1 = heard-append h calls more in
      let c2 = heard-append d calls more in
      let new : (id + 1 == id) ≡ false = ground arith in
      let self : (id == id) ≡ true = ground arith in
      let out : ¬ In id s.connections = λ i. let l = v.below id i in omega (arith, l) in
      let out_live : ¬ In id w.live = λ i. let l = v.below_live id i in omega (arith, l) in
      elim (Bool-cases (is_empty e)) [
        | inl t ↦
            rw (t, new, self)
              (
                record {
                  connected = v.connected;
                  disconnected = v.disconnected;
                  once = (out, v.once);
                  once_live = v.once_live;
                  below = λ j i. elim i [
                    | inl k ↦ omega (arith, k)
                    | inr k ↦ let l = v.below j k in omega (arith, l)
                  ];
                  below_live = λ j i. let l = v.below_live j i in omega (arith, l);
                  held = λ j i. elim i [
                    | inl k ↦ inr (inl k)
                    | inr k ↦ elim (v.held j k) [ inl m ↦ inl m | inr m ↦ inr (inr m) ]
                  ];
                  there = λ j i. elim (v.there j i) [ inl m ↦ inl (inr m) | inr m ↦ inr m ];
                  left = λ j i. elim i [
                    | inl k ↦ (inl k, λ m. out_live (subst (λ z. In z w.live) k m))
                    | inr k ↦ let (m, n) = v.left j k in (inr m, n)
                  ];
                },
                omega (arith, a, b, a1, b1, c1, c2),
              )
        | inr t ↦
            let no_new = not_contains id s.connections out in
            rw (t, new, no_new)
              (
                record {
                  connected = v.connected;
                  disconnected = v.disconnected;
                  once = v.once;
                  once_live = v.once_live;
                  below = λ j i. let l = v.below j i in omega (arith, l);
                  below_live = λ j i. let l = v.below_live j i in omega (arith, l);
                  held = v.held;
                  there = v.there;
                  left = v.left;
                },
                omega (arith, a, b, a1, b1, c1, c2),
              )
      ]

  pub finish-Balanced :
      (id : ℕ) (e : ErrMsg) (w : World)
      → Kept h d w
      → In id w.live
      → Balanced h d w (
        record w { server = (on_finish id e w.server).0; live = without id w.live },
        (on_finish id e w.server).1,
      )
  unfolding on_finish Balanced
  finish-Balanced id e w v i = (
    record {
      connected = v.connected;
      disconnected = v.disconnected;
      once = Distinct-without id w.server.connections v.once;
      once_live = Distinct-without id w.live v.once_live;
      below = λ j k. v.below j ((In-without j id w.server.connections).0 k).0;
      below_live = λ j k. v.below_live j ((In-without j id w.live).0 k).0;
      held = λ j k.
          let (m, n) = (In-without j id w.server.connections).0 k in
          elim (v.held j m) [ inl q ↦ inl ((In-without j id w.live).1 (q, n)) | inr q ↦ inr q ];
      there = λ j k.
          let (m, n) = (In-without j id w.live).0 k in
          elim (v.there j m) [
            | inl q ↦ inl ((In-without j id w.server.connections).1 (q, n))
            | inr q ↦ inr q
          ];
      left = λ j k.
          let (m, n) = v.left j k in
          (
            (In-without j id w.server.connections).1
                (m, λ q. n (subst (λ z. In z w.live) (sym q) i)),
            λ q. n ((In-without j id w.live).0 q).0,
          );
    },
    (let a = heard_self d w.server.disconnected_handler e v.disconnected in
        let b = heard_other h d w.server.disconnected_handler e back v.disconnected in
        let l = length-without_of_In id w.live v.once_live i in omega (arith, a, b, l)),
  )

  pub same_server :
      (e : ErrMsg) (w : World) → Kept h d w → (on_finish w.server.next_id e w.server).0 ≡ w.server
  unfolding on_finish
  same_server e w v =
      let out : ¬ In w.server.next_id w.server.connections =
        λ i. let l = v.below w.server.next_id i in omega (arith, l) in
      ap (λ cs. record w.server { connections = cs })
        (without-eq_of_not_In w.server.next_id w.server.connections out)
