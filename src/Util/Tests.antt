-- ===== src/Util/Tests.antt =====
-- The theorems on src/util/intrusive_list.h at concrete inputs.
use sheep_cpp.Base.{
  ℕ, ◌≡◌, refl, inl, Option, some, List, [], ◌∷◌, if◌then◌else◌, ◌==◌, ℕ_discrete, arith,
}
use sheep_cpp.Util.BlockQueue.{waits, make_queue, pushes, destroys, turns, moves, never_called}
use sheep_cpp.Util.IntrusiveList.{Mem, insert, remove}
use sheep_cpp.Util.IntrusiveList.Rings.{Rings, moved, move-Rings}

-- The node 0 behind the head 1, and the empty ring of the head 2.
abbrev other : ℕ → Option ℕ
other j = some (if j == 0 then 1 else if j == 1 then 0 else j)

abbrev two_rings : Mem
two_rings = record { prev = other; next = other }

abbrev hung : ℕ → List ℕ
hung h = if h == 1 then 0 ∷ [] else []

two_rings-Rings : Rings 1 3 two_rings hung
two_rings-Rings = record {
  seg = λ h i. elim (ℕ_discrete h 1) [ yes e ↦ ground arith | no d ↦ ground arith ];
  distinct = λ h i. elim (ℕ_discrete h 1) [ yes e ↦ ground arith | no d ↦ ground arith ];
  nodes = λ h x i j. elim (ℕ_discrete h 1) [ yes e ↦ ground arith | no d ↦ ground arith ];
  apart = λ g h x i j k l. elim (ℕ_discrete g 1) [
    | yes e ↦ elim (ℕ_discrete h 1) [ yes f ↦ ground arith | no f ↦ ground arith ]
    | no e ↦ ground arith
  ];
}

move-Rings_example :
    (m1 : Mem) × (m2 : Mem) × (remove 0 two_rings ≡ some m1)
    × (insert 2 0 m1 ≡ some m2)
    × Rings 1 3 m2 (moved 2 0 hung)
move-Rings_example =
    move-Rings two_rings-Rings 1 2 0 (omega arith, omega arith) (omega arith, omega arith)
      (inl refl)

never_called_example :
    ((moves (turns ∷ pushes 7 ∷ turns ∷ []) make_queue).called ≡ [])
    × ((moves (turns ∷ pushes 7 ∷ turns ∷ []) make_queue).place ≡ waits
        → (moves (destroys ∷ turns ∷ []) (moves (turns ∷ pushes 7 ∷ turns ∷ []) make_queue)).place
          ≡ waits)
never_called_example = never_called (turns ∷ pushes 7 ∷ turns ∷ []) (destroys ∷ turns ∷ [])
