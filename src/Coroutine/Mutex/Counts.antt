-- ===== src/Coroutine/Mutex/Counts.antt =====
-- What waitings_ of the Mutex of src/coroutine/coroutine_mutex.h counts.
use sheep_cpp.Base.{
  ℕ, ◌+◌, ◌-◌, ◌≡◌, ◌↔◌, inl, inr, Bool, true, false, List, ◌∷◌, In, Distinct, same_or_not, set_at,
  length, without, In-without, Distinct-without, length-without_of_In, arith,
}
use sheep_cpp.Coroutine.Mutex.{Pc, idle, waiting, woken, holding}

-- Counted by waitings_.
abbrev pub counts : Pc → Bool
counts idle = false
counts waiting = true
counts woken = true
counts holding = false

-- Those that `waitings_` counts, each once.
abbrev pub CountedBy : ℕ → (ℕ → Pc) → List ℕ → Type 0
CountedBy n pc inside =
    Distinct inside × (n ≡ length inside) × ((p : ℕ) → In p inside ↔ (counts (pc p) ≡ true))

-- `p` goes to a place that counts as the one before did.
pub counted-set :
    (n : ℕ) (pc : ℕ → Pc) (p : ℕ) (c : Pc) (xs : List ℕ)
    → counts (pc p) ≡ counts c
    → CountedBy n pc xs
    → CountedBy n (set_at p c pc) xs
counted-set n pc p c xs e (d, g, h) =
    (d, g, λ q. (λ i. let k = (h q).0 i in ground arith, λ k. (h q).1 (ground arith)))

pub counted-add :
    (n : ℕ) (pc : ℕ → Pc) (p : ℕ) (c : Pc) (xs : List ℕ)
    → counts (pc p) ≡ false
    → counts c ≡ true
    → CountedBy n pc xs
    → CountedBy (n + 1) (set_at p c pc) (p ∷ xs)
counted-add n pc p c xs e t (d, g, h) = (
  (λ i. let k = (h p).0 i in ground arith, d),
  ground arith,
  λ q. (
    λ i. elim i [ inl a ↦ ground arith | inr j ↦ let k = (h q).0 j in ground arith ],
    λ k. elim (same_or_not q p) [ inl a ↦ inl a | inr a ↦ inr ((h q).1 (ground arith)) ],
  ),
)

pub counted-remove :
    (n : ℕ) (pc : ℕ → Pc) (p : ℕ) (c : Pc) (xs : List ℕ)
    → counts (pc p) ≡ true
    → counts c ≡ false
    → CountedBy n pc xs
    → CountedBy (n - 1) (set_at p c pc) (without p xs)
counted-remove n pc p c xs e t (d, g, h) = (
  Distinct-without p xs d,
  (let l = length-without_of_In p xs d ((h p).1 e) in ground arith),
  λ q. (
    λ i. let (j, m) = (In-without q p xs).0 i in let k = (h q).0 j in ground arith,
    λ k. (In-without q p xs).1 ((h q).1 (ground arith), λ a. ground arith),
  ),
)
