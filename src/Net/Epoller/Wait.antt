-- ===== src/Net/Epoller/Wait.antt =====
-- What a poll of src/net/common/poller/epoller.cpp returns.
use sheep_cpp.Base.{
  ℕ, ◌+◌, ◌≡◌, refl, sym, ap, ◌∙◌, Bool, true, false, Option, none, some, List, [], ◌∷◌, ◌++◌, ◌==◌,
  ==_iff, length, drop, All, Bool-cases, empty, ◌⊎◌, inl, inr, arith,
}
use sheep_cpp.Net.Event.{Event, Store, set_read_able, set_write_able, put_event}
use sheep_cpp.Net.Epoller.{Epoller, PollEvent, lock_fd, poll_loop, ready, poll, Polled}

-- The ids that the poller keeps for the fds.
abbrev pub ids_for : Epoller → List PollEvent → List ℕ
ids_for p [] = []
ids_for p (w ∷ ws) =
    let rest = ids_for p ws in elim (p.events w.fd) [ none ↦ rest | some i ↦ i ∷ rest ]

-- Every fd has an event that is alive, and the kernel says something about it.
abbrev pub AllLive : Epoller → (ℕ → Bool) → List PollEvent → Type 0
AllLive p live ws =
    All
      (λ w.
        (i : ℕ) × (p.events w.fd ≡ some i)
        × (live i ≡ true)
        × ((w.is_in ≡ true) ⊎ (w.is_out_or_err ≡ true)))
      ws

-- The events of the store know their ids.
abbrev pub Agrees : Store → (ℕ → Bool) → Type 0
Agrees store live = (i : ℕ) → live i ≡ true → (e : Event) × (store i ≡ some e) × (e.id ≡ i)

put-Agrees :
    (store : Store) (live : ℕ → Bool) (e : Event) (i : ℕ)
    → e.id ≡ i
    → Agrees store live
    → Agrees (put_event store i e) live
put-Agrees store live e i g a j l = elim (Bool-cases (j == i)) [
  | inl b ↦ (e, ground arith, g ∙ sym ((==_iff j i).0 b))
  | inr b ↦ let (f, h, k) = a j l in (f, ground (arith, h), k)
]

abbrev Found : Option (List ℕ × Store) → List ℕ → Type 0
Found o ids = (store : Store) × (o ≡ some (ids, store))

poll_loop-ready :
    (num i : ℕ) (ws stale : List PollEvent) (p : Epoller) (store : Store) (live : ℕ → Bool)
    → i + length ws ≡ num
    → AllLive p live ws
    → Agrees store live
    → Found (poll_loop num i (ws ++ stale) p store) (ids_for p ws)
unfolding poll_loop lock_fd set_read_able set_write_able
poll_loop-ready num i [] [] p store live e v a = (store, refl)
poll_loop-ready num i [] (s ∷ stale) p store live e v a =
    (store, let z : (i == num) ≡ true = ground arith in ground (arith, z))
poll_loop-ready num i (w ∷ ws) stale p store live e v a =
    let (id, f, l, c) = v.0 in
    let (ev, g, h) = a id l in
    let ne : (i == num) ≡ false = ground arith in
    elim (Bool-cases w.is_in) [
      | inl b ↦
          let (st, r) =
            poll_loop-ready num (i + 1) ws stale p (put_event store ev.id (set_read_able ev)) live
              (omega arith) v.1 (put-Agrees store live (set_read_able ev) ev.id refl a) in
          (st, ground (arith, f, g, h, r, b, ne))
      | inr b ↦
          let (st, r) =
            poll_loop-ready num (i + 1) ws stale p (put_event store ev.id (set_write_able ev)) live
              (omega arith) v.1 (put-Agrees store live (set_write_able ev) ev.id refl a) in
          (
            st,
            let b' : w.is_out_or_err ≡ true = ground (arith, c) in
                ground (arith, f, g, h, r, b, b', ne),
          )
    ]

-- Poll of an epoller, where every entry that the kernel reports is for an fd whose event exists
-- and names input, output or an error, and the events know their ids: it returns without an error
-- the events of these fds, in the order of the entries, and reads no older entry.
pub poll-ready :
    (ws : List PollEvent) (p : Epoller) (store : Store) (live : ℕ → Bool)
    → AllLive p live ws
    → Agrees store live
    → (r : Polled) × (poll (ready ws) p store ≡ some r)
      × (r.ids ≡ ids_for p ws)
      × (r.err_msg ≡ empty)
unfolding poll
poll-ready ws p store live v a =
    let p' = record p { poll_events = ws ++ drop (length ws) p.poll_events } in
    let (st, e) =
      poll_loop-ready (length ws) 0 ws (drop (length ws) p.poll_events) p' store live (omega arith)
        v a in
    (
      record { poller = p'; ids = ids_for p ws; store = st; err_msg = empty },
      ground (arith, e),
      refl,
      refl,
    )

-- Where the kernel reports one entry whose event is gone, and the second entry left from before
-- is an input entry of an fd whose event exists: Poll returns that event, about which the kernel
-- reported nothing.
poll_stale :
    (w first v : PollEvent) (rest : List PollEvent) (p : Epoller) (store : Store) (e : Event)
    → p.poll_events ≡ first ∷ v ∷ rest
    → lock_fd p store w.fd ≡ none
    → lock_fd p store v.fd ≡ some e
    → v.is_in ≡ true
    → (r : Polled) × (poll (ready (w ∷ [])) p store ≡ some r) × (r.ids ≡ e.id ∷ [])
unfolding poll poll_loop lock_fd
poll_stale w first v rest p store e s g h b =
    let p' : Epoller = record p { poll_events = (w ∷ []) ++ drop 1 p.poll_events } in
    let t : drop 1 p.poll_events ≡ v ∷ rest = ap (λ l. drop 1 l) s in
    let st = put_event store e.id (set_read_able e) in
    let l : poll_loop 1 1 rest p' st ≡ some ([], st) = last rest p' st in
    (
      record { poller = p'; ids = e.id ∷ []; store = st; err_msg = empty },
      ground (arith, t, g, h, b, l),
      refl,
    )
  where
    last : (r : List PollEvent) (q : Epoller) (s : Store) → poll_loop 1 1 r q s ≡ some ([], s)
    last [] q s = refl
    last (x ∷ r) q s = refl
