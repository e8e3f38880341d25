-- ===== src/Util/IntrusiveList/Ring.antt =====
-- The cells of src/util/intrusive_list.h as rings: what insertion and removal do to the ring that they
-- touch, and to the others.
use sheep_cpp.Base.{
  ℕ, ◌≡◌, ◌≢◌, refl, sym, ◌∙◌, inl, inr, Option, some, List, [], ◌∷◌, ◌++◌, ◌==◌, Bool-cases, subst,
  In, In-ne, Distinct, In-append, arith,
}
use sheep_cpp.Util.IntrusiveList.{Mem, update, insert, remove}

-- The nodes `xs` lead from `a` to `b` along `next`, and back along `prev`.
abbrev pub Seg : Mem → ℕ → List ℕ → ℕ → Type 0
Seg m a [] b = (m.next a ≡ some b) × (m.prev b ≡ some a)
Seg m a (x ∷ xs) b = (m.next a ≡ some x) × (m.prev x ≡ some a) × Seg m x xs b

pub Seg-frame :
    (m m' : Mem) (a : ℕ) (xs : List ℕ) (b : ℕ)
    → ((k : ℕ) → In k (a ∷ xs) → m'.next k ≡ m.next k)
    → ((k : ℕ) → In k (b ∷ xs) → m'.prev k ≡ m.prev k)
    → Seg m a xs b
    → Seg m' a xs b
Seg-frame m m' a [] b n p (e, f) = (n a (inl refl) ∙ e, p b (inl refl) ∙ f)
Seg-frame m m' a (x ∷ xs) b n p (e, f, s) = (
  n a (inl refl) ∙ e,
  p x (inr (inl refl)) ∙ f,
  Seg-frame m m' x xs b (λ k h. n k (inr h))
      (λ k h. p k (elim h [ inl q ↦ inl q | inr r ↦ inr (inr r) ])) s,
)

pub Seg-append :
    (m : Mem) (a : ℕ) (us : List ℕ) (x : ℕ) (vs : List ℕ) (b : ℕ)
    → Seg m a (us ++ x ∷ vs) b
    → Seg m a us x × Seg m x vs b
Seg-append m a [] x vs b (e, f, s) = ((e, f), s)
Seg-append m a (u ∷ us) x vs b (e, f, s) = let (l, r) = Seg-append m u us x vs b s in ((e, f, l), r)

first : List ℕ → ℕ → ℕ
first [] b = b
first (x ∷ xs) b = x

last : ℕ → List ℕ → ℕ
last a [] = a
last a (x ∷ xs) = last x xs

first-In : (xs : List ℕ) (b : ℕ) → In (first xs b) (b ∷ xs)
unfolding first
first-In [] b = inl refl
first-In (x ∷ xs) b = inr (inl refl)

last-In : (a : ℕ) (xs : List ℕ) → In (last a xs) (a ∷ xs)
unfolding last
last-In a [] = inl refl
last-In a (x ∷ xs) = inr (last-In x xs)

Seg-first : (m : Mem) (a : ℕ) (xs : List ℕ) (b : ℕ) → Seg m a xs b → m.next a ≡ some (first xs b)
unfolding first
Seg-first m a [] b s = s.0
Seg-first m a (x ∷ xs) b s = s.0

Seg-last : (m : Mem) (a : ℕ) (xs : List ℕ) (b : ℕ) → Seg m a xs b → m.prev b ≡ some (last a xs)
unfolding last
Seg-last m a [] b s = s.1
Seg-last m a (x ∷ xs) b s = Seg-last m x xs b s.2

pub update_other : (f : ℕ → Option ℕ) (k j : ℕ) (v : Option ℕ) → j ≢ k → update f k v j ≡ f j
update_other f k j v h = ground arith

pub update_same : (f : ℕ → Option ℕ) (k : ℕ) (v : Option ℕ) → update f k v k ≡ v
update_same f k v = ground arith

-- The memory after `insert h node`, where `n` follows `h`.
inserted : Mem → ℕ → ℕ → ℕ → Mem
inserted m h node n = record {
  prev = update (update m.prev node (some h)) n (some node);
  next = update (update m.next node (some n)) h (some node);
}

insert_lem :
    (m : Mem) (h node n : ℕ) → m.next h ≡ some n → insert h node m ≡ some (inserted m h node n)
unfolding insert inserted
insert_lem m h node n e = elim (Bool-cases (h == node)) [
  | inl t ↦ simp (t, e) refl
  | inr t ↦ simp (t, e) refl
]

-- The memory after `remove node`, where `p` and `n` are its neighbours.
removed : Mem → ℕ → ℕ → Mem
removed m p n = record { prev = update m.prev n (some p); next = update m.next p (some n) }

remove_lem :
    (m : Mem) (node p n : ℕ)
    → m.prev node ≡ some p
    → m.next node ≡ some n
    → remove node m ≡ some (removed m p n)
unfolding remove removed
remove_lem m node p n e f = elim (Bool-cases (node == p)) [
  | inl t ↦ simp (e, f, t) refl
  | inr t ↦ simp (e, f, t) refl
]

inserted-Seg :
    (m : Mem) (h node : ℕ) (xs : List ℕ)
    → ¬ In node (h ∷ xs)
    → Distinct (h ∷ xs)
    → Seg m h xs h
    → Seg (inserted m h node (first xs h)) h (node ∷ xs) h
unfolding inserted first
inserted-Seg m h node [] out d s = ground (arith, λ (e : node ≡ h). out (inl e))
inserted-Seg m h node (x ∷ xs) out d (e, f, s) =
    let a : x ≢ node = In-ne (h ∷ x ∷ xs) (inr (inl refl)) out in
    let b : h ≢ node = In-ne (h ∷ x ∷ xs) (inl refl) out in
    let c : x ≢ h = In-ne (x ∷ xs) (inl refl) d.0 in
    (
      ground arith,
      ground arith,
      (
        ground arith,
        ground arith,
        Seg-frame m (inserted m h node x) x xs h
            (λ k i.
              ground (arith, In-ne {k = k} (x ∷ xs) i d.0, In-ne {k = k} (h ∷ x ∷ xs) (inr i) out))
            (λ k i.
              ground
                (arith, In-ne {k = k} (h ∷ xs) i (clash d), In-ne {k = k} (h ∷ xs) i (skip out)))
            s,
      ),
    )
  where
    clash : Distinct (h ∷ x ∷ xs) → ¬ In x (h ∷ xs)
    clash d (inl q) = d.0 (inl (sym q))
    clash d (inr i) = d.1.0 i

    skip : ¬ In node (h ∷ x ∷ xs) → ¬ In node (h ∷ xs)
    skip out (inl q) = out (inl q)
    skip out (inr i) = out (inr (inr i))

-- Inserting a node that is on no ring puts it right behind the head.
pub insert-Seg :
    (m : Mem) (h node : ℕ) (xs : List ℕ)
    → ¬ In node (h ∷ xs)
    → Distinct (h ∷ xs)
    → Seg m h xs h
    → (m' : Mem) × (insert h node m ≡ some m')
      × Seg m' h (node ∷ xs) h
      × ((k : ℕ) → ¬ In k (node ∷ h ∷ xs) → (m'.next k ≡ m.next k) × (m'.prev k ≡ m.prev k))
unfolding inserted
insert-Seg m h node xs out d s = (
  inserted m h node (first xs h),
  insert_lem m h node _ (Seg-first m h xs h s),
  inserted-Seg m h node xs out d s,
  λ k i. ground (
    arith,
    In-ne {k = node} (node ∷ h ∷ xs) (inl refl) i,
    In-ne {k = h} (node ∷ h ∷ xs) (inr (inl refl)) i,
    In-ne {k = first xs h} (node ∷ h ∷ xs) (inr (first-In xs h)) i,
  ),
)

removed-Seg :
    (m : Mem) (a : ℕ) (us : List ℕ) (node : ℕ) (vs : List ℕ) (b : ℕ)
    → Distinct (a ∷ us ++ node ∷ vs)
    → ¬ In b (us ++ node ∷ vs)
    → Seg m a (us ++ node ∷ vs) b
    → Seg (removed m (last a us) (first vs b)) a (us ++ vs) b
unfolding removed first last
removed-Seg m a [] node [] b d o s = ground arith
removed-Seg m a [] node (v ∷ vs) b d o (e, f, (g, h, s)) =
    let c : v ≢ b = In-ne (node ∷ v ∷ vs) (inr (inl refl)) o in
    (
      ground arith,
      ground arith,
      Seg-frame m (removed m a v) v vs b
          (λ k i. ground (arith, In-ne {k = k} (node ∷ v ∷ vs) (inr i) d.0))
          (λ k i. elim i [
            | inl q ↦ ground arith
            | inr r ↦ ground (arith, In-ne {k = k} vs r d.1.1.0)
          ])
          s,
    )
removed-Seg m a (u ∷ us) node vs b d o (e, f, s) =
    let p : last u us ≢ a =
      In-ne (u ∷ us ++ node ∷ vs)
        ((In-append (last u us) (u ∷ us) (node ∷ vs)).1 (inl (last-In u us))) d.0 in
    let q : first vs b ≢ u = λ e. apart e (first-In vs b) in
    (ground arith, ground arith, removed-Seg m u us node vs b d.1 (λ r. o (inr r)) s)
  where
    apart : first vs b ≡ u → In (first vs b) (b ∷ vs) → ⊥
    apart e (inl g) = o (inl (sym g ∙ e))
    apart e (inr i) = d.1.0 ((In-append u us (node ∷ vs)).1 (inr (inr (subst (λ z. In z vs) e i))))

-- Removing a node of a ring leaves the others in their order, and touches no cell off the ring.
pub remove-Seg :
    (m : Mem) (h node : ℕ) (us vs : List ℕ)
    → Distinct (h ∷ us ++ node ∷ vs)
    → Seg m h (us ++ node ∷ vs) h
    → (m' : Mem) × (remove node m ≡ some m')
      × Seg m' h (us ++ vs) h
      × ((k : ℕ) → ¬ In k (h ∷ us ++ node ∷ vs) → (m'.next k ≡ m.next k) × (m'.prev k ≡ m.prev k))
remove-Seg m h node us vs d s =
    let (l, r) = Seg-append m h us node vs h s in
    (
      removed m (last h us) (first vs h),
      remove_lem m node _ _ (Seg-last m h us node l) (Seg-first m node vs h r),
      removed-Seg m h us node vs h d d.0 s,
      λ k i.
          unfold removed in
          ground (
            arith,
            In-ne {k = last h us} (h ∷ us ++ node ∷ vs)
                ((In-append (last h us) (h ∷ us) (node ∷ vs)).1 (inl (last-In h us))) i,
            In-ne {k = first vs h} (h ∷ us ++ node ∷ vs) (front_in (first-In vs h)) i,
          ),
    )
  where
    front_in : {z : ℕ} → In z (h ∷ vs) → In z (h ∷ us ++ node ∷ vs)
    front_in (inl e) = inl e
    front_in {z} (inr i) = inr ((In-append z us (node ∷ vs)).1 (inr (inr i)))
