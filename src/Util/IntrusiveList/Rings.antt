-- ===== src/Util/IntrusiveList/Rings.antt =====
-- Several rings of src/util/intrusive_list.h in one memory: nodes below `n`, heads from `n` up to `top`.
use sheep_cpp.Base.{
  ℕ, ◌≡◌, ◌<◌, ◌≤◌, ◌≢◌, ◌⊎◌, refl, sym, ap, ◌∙◌, subst, inl, inr, some, List, ◌∷◌, Distinct, In,
  In-split, In-without, without, without-middle, without-eq_of_not_In, Distinct-without,
  Distinct-middle, ℕ_discrete, arith, if◌then◌else◌, ◌==◌,
}
use sheep_cpp.Util.IntrusiveList.{Mem, insert, remove}
use sheep_cpp.Util.IntrusiveList.Ring.{Seg, Seg-frame, insert-Seg, remove-Seg}

abbrev pub IsHead : ℕ → ℕ → ℕ → Type 0
IsHead n top h = (n ≤ h) × (h < top)

-- `lists h` is what hangs on the head `h`; no node hangs on two heads.
pub record Rings (n top : ℕ) (m : Mem) (lists : ℕ → List ℕ) : Type 0 where
  pub seg : (h : ℕ) → IsHead n top h → Seg m h (lists h) h
  pub distinct : (h : ℕ) → IsHead n top h → Distinct (lists h)
  pub nodes : (h x : ℕ) → IsHead n top h → In x (lists h) → x < n
  pub apart :
      (g h x : ℕ) → IsHead n top g → IsHead n top h → In x (lists g) → In x (lists h) → g ≡ h

abbrev pub taken : ℕ → (ℕ → List ℕ) → ℕ → List ℕ
taken x lists h = without x (lists h)

abbrev pub pushed : ℕ → ℕ → (ℕ → List ℕ) → ℕ → List ℕ
pushed g x lists h = if h == g then x ∷ lists h else lists h

pub pushed_same : (g x : ℕ) (lists : ℕ → List ℕ) → pushed g x lists g ≡ x ∷ lists g
pushed_same g x lists = ground arith

pub pushed_other : (g x h : ℕ) (lists : ℕ → List ℕ) → h ≢ g → pushed g x lists h ≡ lists h
pushed_other g x h lists d = ground arith

pub In-pushed :
    (g x h z : ℕ) (lists : ℕ → List ℕ)
    → In z (pushed g x lists h)
    → ((h ≡ g) × (z ≡ x)) ⊎ In z (lists h)
In-pushed g x h z lists i = elim (ℕ_discrete h g) [
  | yes q ↦ elim (subst (In z) (ap (pushed g x lists) q ∙ pushed_same g x lists) i) [
    | inl e ↦ inl (q, e)
    | inr y ↦ inr (subst (λ k. In z (lists k)) (sym q) y)
  ]
  | no q ↦ inr (subst (In z) (pushed_other g x h lists q) i)
]

module _ {n top : ℕ} {m : Mem} {lists : ℕ → List ℕ} (r : Rings n top m lists) where
  pub Distinct-ring : (h : ℕ) → IsHead n top h → Distinct (h ∷ lists h)
  Distinct-ring h i = (λ k. absurd (omega (arith, r.nodes h h i k)), r.distinct h i)

  -- Two rings share no cell.
  off_ring :
      (h g : ℕ)
      → IsHead n top h
      → IsHead n top g
      → h ≢ g
      → (k : ℕ) → In k (h ∷ lists h)
      → ¬ In k (g ∷ lists g)
  off_ring h g i j d k (inl e) (inl f) = d (sym e ∙ f)
  off_ring h g i j d k (inl e) (inr y) = absurd (omega (arith, r.nodes g k j y))
  off_ring h g i j d k (inr x) (inl f) = absurd (omega (arith, r.nodes h k i x))
  off_ring h g i j d k (inr x) (inr y) = d (r.apart h g k i j x y)

  -- A ring is untouched by a change to the cells of another ring.
  other_ring :
      (m' : Mem) (h g : ℕ)
      → IsHead n top h
      → IsHead n top g
      → h ≢ g
      → ((k : ℕ) → ¬ In k (g ∷ lists g) → (m'.next k ≡ m.next k) × (m'.prev k ≡ m.prev k))
      → Seg m' h (lists h) h
  other_ring m' h g i j d frame =
      Seg-frame m m' h (lists h) h (λ k x. (frame k (off_ring h g i j d k x)).0)
        (λ k x. (frame k (off_ring h g i j d k x)).1) (r.seg h i)

  -- Removing a linked node takes it off its ring, and keeps every ring.
  pub remove-Rings :
      (g x : ℕ)
      → IsHead n top g
      → In x (lists g)
      → (m' : Mem) × (remove x m ≡ some m') × Rings n top m' (taken x lists)
  remove-Rings g x j i =
      let (us, vs, e) = In-split x (lists g) i in
      let (m', ok, seg, frame) =
        remove-Seg m g x us vs (subst (λ l. Distinct (g ∷ l)) e (Distinct-ring g j))
          (subst (λ l. Seg m g l g) e (r.seg g j)) in
      let (d, out) = Distinct-middle x us vs (subst Distinct e (r.distinct g j)) in
      let here : Seg m' g (taken x lists g) g = rw (e, without-middle x us vs out) seg in
      (
        m',
        ok,
        record {
          seg = λ h k. elim (ℕ_discrete h g) [
            | yes q ↦ rw q here
            | no q ↦
                rw (without-eq_of_not_In x (lists h) (λ y. q (r.apart h g x k j y i)))
                  (other_ring m' h g k j q (λ z o. frame z (subst (λ l. ¬ In z (g ∷ l)) e o)))
          ];
          distinct = λ h k. Distinct-without x (lists h) (r.distinct h k);
          nodes = λ h y k z. r.nodes h y k ((In-without y x (lists h)).0 z).0;
          apart = λ a b y k l z w.
              r.apart a b y k l ((In-without y x (lists a)).0 z).0
                ((In-without y x (lists b)).0 w).0;
        },
      )

  -- Inserting a node that is on no ring puts it first on the ring of `g`.
  pub insert-Rings :
      (g x : ℕ)
      → IsHead n top g
      → x < n
      → ((h : ℕ) → IsHead n top h → ¬ In x (lists h))
      → (m' : Mem) × (insert g x m ≡ some m') × Rings n top m' (pushed g x lists)
  insert-Rings g x j b out =
      let (m', ok, seg, frame) = insert-Seg m g x (lists g) fresh (Distinct-ring g j) (r.seg g j) in
      (
        m',
        ok,
        record {
          seg = λ h k. elim (ℕ_discrete h g) [
            | yes q ↦ rw (q, pushed_same g x lists) seg
            | no q ↦ rw (pushed_other g x h lists q) (
                Seg-frame m m' h (lists h) h (λ z i. (frame z (apart_of h k q z i)).0)
                  (λ z i. (frame z (apart_of h k q z i)).1) (r.seg h k))
          ];
          distinct = λ h k. elim (ℕ_discrete h g) [
            | yes q ↦ rw (q, pushed_same g x lists) (out g j, r.distinct g j)
            | no q ↦ rw (pushed_other g x h lists q) (r.distinct h k)
          ];
          nodes = λ h y k z. elim (In-pushed g x h y lists z) [
            | inl (_, e) ↦ rw e b
            | inr i ↦ r.nodes h y k i
          ];
          apart = λ a c y k l z w.
              meet a c y k l (In-pushed g x a y lists z) (In-pushed g x c y lists w);
        },
      )
    where
      fresh : ¬ In x (g ∷ lists g)
      fresh (inl e) = absurd (omega arith)
      fresh (inr i) = out g j i

      apart_of :
          (h : ℕ) → IsHead n top h → h ≢ g → (z : ℕ) → In z (h ∷ lists h) → ¬ In z (x ∷ g ∷ lists g)
      apart_of h k q z (inl e) (inl f) = absurd (omega arith)
      apart_of h k q z (inr i) (inl f) = out h k (subst (λ t. In t (lists h)) f i)
      apart_of h k q z i (inr l) = off_ring h g k j q z i l

      meet :
          (a c y : ℕ)
          → IsHead n top a
          → IsHead n top c
          → ((a ≡ g) × (y ≡ x)) ⊎ In y (lists a)
          → ((c ≡ g) × (y ≡ x)) ⊎ In y (lists c)
          → a ≡ c
      meet a c y k l (inl (e, _)) (inl (f, _)) = e ∙ sym f
      meet a c y k l (inl (_, e)) (inr w) = absurd (out c l (subst (λ z. In z (lists c)) e w))
      meet a c y k l (inr z) (inl (_, e)) = absurd (out a k (subst (λ z. In z (lists a)) e z))
      meet a c y k l (inr z) (inr w) = r.apart a c y k l z w

abbrev pub moved : ℕ → ℕ → (ℕ → List ℕ) → ℕ → List ℕ
moved g x lists = pushed g x (taken x lists)

-- In a memory of disjoint rings, removing a linked node and inserting it behind a head follows no
-- null pointer, and gives the memory of the rings in which the node stands first behind that head
-- and nowhere else.
pub move-Rings :
    {n top : ℕ} {m : Mem} {lists : ℕ → List ℕ}
    → Rings n top m lists
    → (f g x : ℕ) → IsHead n top f
    → IsHead n top g
    → In x (lists f)
    → (m1 : Mem) × (m2 : Mem) × (remove x m ≡ some m1)
      × (insert g x m1 ≡ some m2)
      × Rings n top m2 (moved g x lists)
move-Rings {lists = lists} r f g x i j k =
    let (m1, a, r1) = remove-Rings r f x i k in
    let (m2, b, r2) =
      insert-Rings r1 g x j (r.nodes f x i k) (λ h l z. ((In-without x x (lists h)).0 z).1 refl) in
    (m1, m2, a, b, r2)

pub moved_self : (g x : ℕ) (lists : ℕ → List ℕ) → In x (moved g x lists g)
moved_self g x lists = rw (pushed_same g x (taken x lists)) (inl refl)

pub moved-keeps :
    (g x h y : ℕ) (lists : ℕ → List ℕ) → In y (lists h) → y ≢ x → In y (moved g x lists h)
moved-keeps g x h y lists i d =
    let j = (In-without y x (lists h)).1 (i, d) in
    elim (ℕ_discrete h g) [
      | yes q ↦
          rw (q, pushed_same g x (taken x lists)) (inr (subst (λ k. In y (taken x lists k)) q j))
      | no q ↦ rw (pushed_other g x h (taken x lists) q) j
    ]
