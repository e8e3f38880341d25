-- ===== src/Net/EventLoop/Round.antt =====
-- A round of src/net/common/event_loop.cpp over the asyncer poller.
use sheep_cpp.Base.{
  ℕ, ◌≡◌, refl, ap, ◌⊎◌, ◌∙◌, inl, inr, true, false, some, List, [], ◌∷◌, map, In, In-ne, Distinct,
  empty, Option-cases, arith,
}
use sheep_cpp.Net.Event.{
  Event, Store, Env, Callback, reads, do_event, put_event, set_read_able, clear_read_able,
}
use sheep_cpp.Net.EventLoop.{do_all, do_poller}
use sheep_cpp.Net.AsyncerPoller.{AsyncerPoller, poll}
use sheep_cpp.Net.AsyncerPoller.Order.{Watches}
use sheep_cpp.Net.AsyncerPoller.Polling.{alive, poll-Watches}

-- The event `i` is alive, can be read, and asks for it.
abbrev IsReady : Store → ℕ → Type 0
IsReady store i =
    (e : Event) × (store i ≡ some e) × (e.id ≡ i) × (e.read_able ≡ true) × (e.read_notify ≡ true)

do_all-ready :
    (env : Env) (ids : List ℕ) (store : Store)
    → ((i : ℕ) (k : Callback) (s : Store) → env i k s ≡ s)
    → Distinct ids
    → ((i : ℕ) → In i ids → IsReady store i)
    → (do_all env ids store).1 ≡ map (λ i. (i, reads)) ids
unfolding do_all do_event clear_read_able
do_all-ready env [] store q d h = refl
do_all-ready env (i ∷ ids) store q d h =
    let (e, f, g, a, n) = h i (inl refl) in
    let st = put_event store i (record e { read_able = false }) in
    let r = do_all-ready env ids st q d.1 (λ j k.
      let (e', f', g', a', n') = h j (inr k) in
      let ne = In-ne ids k d.0 in (e', ground (arith, f', ne), g', a', n')) in
    let z = q i reads store in ground (arith, f, g, a, n, r, z)

In-alive :
    (store : Store) (i : ℕ) (ids : List ℕ)
    → In i (alive store ids)
    → In i ids × ((e : Event) × (store i ≡ some e))
In-alive store i [] h = absurd h
In-alive store i (j ∷ ids) h = elim (Option-cases (store j)) [
  | inl e ↦ let (a, b) = In-alive store i ids (ground (arith, e, h)) in (inr a, b)
  | inr (v, e) ↦
      let k : (i ≡ j) ⊎ In i (alive store ids) = ground (arith, e, h) in
      elim k [
        | inl x ↦ (inl x, (v, ap store x ∙ e))
        | inr x ↦ let (a, b) = In-alive store i ids x in (inr a, b)
      ]
]

alive-Distinct : (store : Store) (ids : List ℕ) → Distinct ids → Distinct (alive store ids)
alive-Distinct store [] d = tt
alive-Distinct store (j ∷ ids) d =
    let r = alive-Distinct store ids d.1 in
    elim (Option-cases (store j)) [
      | inl e ↦ ground (arith, e, r)
      | inr (v, e) ↦
          let o : ¬ In j (alive store ids) = λ h. d.0 (In-alive store j ids h).0 in
          ground (arith, e, r, o)
    ]

-- One round of the event loop over an asyncer poller that watches the events ids, where the
-- callbacks leave the events alone and every event that exists knows its id and has its read
-- notification on: the read callback of each event of ids that exists is called exactly once, in
-- their order.
asyncer_round :
    (env : Env) (p : AsyncerPoller) (ids : List ℕ) (store : Store)
    → Watches p ids
    → ((i : ℕ) (k : Callback) (s : Store) → env i k s ≡ s)
    → ((i : ℕ) (e : Event) → store i ≡ some e → (e.id ≡ i) × (e.read_notify ≡ true))
    → (do_poller env empty (poll p store).0 (poll p store).1).1
      ≡ map (λ i. (i, reads)) (alive store ids)
unfolding do_poller set_read_able
asyncer_round env p ids store w q n =
    let (f, m) = poll-Watches p ids store w in
    rw f (
      do_all-ready env (alive store ids) (poll p store).1 q (alive-Distinct store ids w.distinct)
        (λ i k.
          let (a, (e, b)) = In-alive store i ids k in
          let (x, y) = n i e b in (set_read_able e, (m i).0 a e b, x, refl, y)))
