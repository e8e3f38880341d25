-- ===== src/Util/IntrusiveList/Walk.antt =====
-- Reading a ring of src/util/intrusive_list.h: emptiness, the front, and all nodes in order.
use sheep_cpp.Base.{
  ℕ, zero, suc, ◌≡◌, ◌<◌, refl, inl, inr, some, none, Option, List, [], ◌∷◌, Distinct, In, In-ne,
  length, arith,
}
use sheep_cpp.Util.IntrusiveList.{Mem, init, front, collect, get_all_nodes}
use sheep_cpp.Util.IntrusiveList.Ring.{Seg}

abbrev pub head? : List ℕ → Option ℕ
head? [] = none
head? (x ∷ xs) = some x

-- A fresh head is the empty ring.
pub init-Seg : (m : Mem) (h : ℕ) → Seg (init h m) h [] h
unfolding init
init-Seg m h = ground arith

pub front-Seg :
    (m : Mem) (h : ℕ) (xs : List ℕ) → Distinct (h ∷ xs) → Seg m h xs h → front h m ≡ head? xs
unfolding front
front-Seg m h [] d s = ground arith
front-Seg m h (x ∷ xs) d s = ground (arith, In-ne {k = x} (x ∷ xs) (inl refl) d.0)

collect-Seg :
    (fuel : ℕ) (m : Mem) (h a : ℕ) (xs : List ℕ)
    → length xs < fuel
    → ¬ In h xs
    → Seg m a xs h
    → collect fuel h (m.next a) m ≡ some xs
unfolding collect
collect-Seg zero m h a xs f o s = absurd (omega arith)
collect-Seg (suc fuel) m h a [] f o s = ground arith
collect-Seg (suc fuel) m h a (x ∷ xs) f o (e, g, s) =
    let r = collect-Seg fuel m h x xs (omega arith) (λ i. o (inr i)) s in
    ground (arith, In-ne {k = x} (x ∷ xs) (inl refl) o)

-- With more fuel than a ring has nodes, IntrusiveListGetAllNodes returns, and returns the nodes
-- of the ring in order.
pub get_all_nodes-Seg :
    (fuel : ℕ) (m : Mem) (h : ℕ) (xs : List ℕ)
    → length xs < fuel
    → Distinct (h ∷ xs)
    → Seg m h xs h
    → get_all_nodes fuel h m ≡ some xs
unfolding get_all_nodes
get_all_nodes-Seg fuel m h xs f d s = collect-Seg fuel m h h xs f d.0 s
