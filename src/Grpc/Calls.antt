-- ===== src/Grpc/Calls.antt =====
-- The calls of a server of src/small_server, from their requests to the end.
pub mod Kept
pub mod Once
use sheep_cpp.Base.{
  ℕ, suc, ◌<◌, ◌≡◌, ◌≢◌, ◌⊎◌, refl, sym, ap, subst, ◌∙◌, inl, inr, Bool, true, false, Option, none,
  some, List, [], ◌∷◌, ◌++◌, map, if◌then◌else◌, ◌==◌, set_at, same_or_not, In, In-ne, In-append,
  In-without, Distinct, Distinct-middle, Distinct-snoc, Distinct-without, without, ErrMsg, empty,
  says, Bool-cases, arith,
}
use sheep_cpp.Grpc.{
  GrpcServer, create_event, run, service_proceed, server_proceed, proceed, finish, World, heard,
  ◌⟶◌, comes, finishes, Reached, runs, next,
}

abbrev pub told : GrpcServer → List ℕ
told s = map (λ m. m.0) s.messages

-- The call has its request, and its event exists.
abbrev pub Called : GrpcServer → ℕ → Type 0
Called s i = (s.alive i ≡ true) × (s.processing i ≡ true) × (s.finishing i ≡ true)

pub record Inv (w : World) : Type 0 where
  pub waiting : ℕ
  pub waits :
      (w.0.alive waiting ≡ true)
      × (w.0.processing waiting ≡ false)
      × (w.0.finishing waiting ≡ false)
  pub in_queue : In waiting w.0.pending
  pub queued : (i : ℕ) → In i w.0.pending → (i ≡ waiting) ⊎ Called w.0 i
  pub answerable : (i : ℕ) → In i w.1 → Called w.0 i × (¬ In i w.0.pending)
  pub once_queued : Distinct w.0.pending
  pub once_given : Distinct w.1
  pub below : (i : ℕ) → w.0.alive i ≡ true → i < w.0.made
  pub kept : (i : ℕ) → w.0.alive i ≡ true → In i w.0.pending ⊎ In i w.1
  pub before : (i : ℕ) → In i (told w.0) → (i < w.0.made) × (w.0.finishing i ≡ true)
  pub once_told : Distinct (told w.0)

pub run-Inv : Inv (run, [])
unfolding run create_event
run-Inv = record {
  waiting = 0;
  waits = (refl, refl, refl);
  in_queue = inl refl;
  queued = λ i h. elim h [ inl e ↦ inl e | inr k ↦ absurd k ];
  answerable = λ i h. absurd h;
  once_queued = (λ h. h, tt);
  once_given = tt;
  below = λ i h. ground (arith, h);
  kept = λ i h. inl (inl (ground (arith, h)));
  before = λ i h. absurd h;
  once_told = tt;
}

pub In-snoc : (x y : ℕ) (xs : List ℕ) → In x (xs ++ y ∷ []) → In x xs ⊎ (x ≡ y)
In-snoc x y xs h = elim ((In-append x xs (y ∷ [])).0 h) [
  | inl a ↦ inl a
  | inr b ↦ inr (elim b [ inl e ↦ e | inr k ↦ absurd k ])
]

pub In-snoc_old : (x y : ℕ) (xs : List ℕ) → In x xs → In x (xs ++ y ∷ [])
In-snoc_old x y xs h = (In-append x xs (y ∷ [])).1 (inl h)

pub In-snoc_new : (x : ℕ) (xs : List ℕ) → In x (xs ++ x ∷ [])
In-snoc_new x xs = (In-append x xs (x ∷ [])).1 (inr (inl refl))

-- A tag that is not the one taken stands in what is left of the queue.
pub In-left : (x y : ℕ) (us vs : List ℕ) → In x (us ++ y ∷ vs) → x ≢ y → In x (us ++ vs)
In-left x y us vs h n = elim ((In-append x us (y ∷ vs)).0 h) [
  | inl a ↦ (In-append x us vs).1 (inl a)
  | inr b ↦ elim b [ inl e ↦ absurd (n e) | inr c ↦ (In-append x us vs).1 (inr c) ]
]

pub In-here : (x : ℕ) (us vs : List ℕ) → In x (us ++ x ∷ vs)
In-here x us vs = (In-append x us (x ∷ vs)).1 (inr (inl refl))

pub In-whole : (x y : ℕ) (us vs : List ℕ) → In x (us ++ vs) → In x (us ++ y ∷ vs)
In-whole x y us vs h = elim ((In-append x us vs).0 h) [
  | inl a ↦ (In-append x us (y ∷ vs)).1 (inl a)
  | inr b ↦ (In-append x us (y ∷ vs)).1 (inr (inr b))
]

pub map-snoc :
    (ms : List (ℕ × ErrMsg)) (m : ℕ × ErrMsg)
    → map (λ z. z.0) (ms ++ m ∷ []) ≡ map (λ z. z.0) ms ++ m.0 ∷ []
map-snoc [] m = refl
map-snoc (x ∷ ms) m = ap (◌∷◌ x.0) (map-snoc ms m)
