-- ===== src/Coroutine/Scheduler/Lists.antt =====
-- The four lists of src/coroutine/coroutine_scheduler.cpp.
use sheep_cpp.Base.{
  ℕ, ◌+◌, ◌<◌, ◌≡◌, ◌≢◌, ◌⊎◌, In-without, refl, sym, ◌∙◌, subst, inl, inr, true, false, some,
  Option, List, [], ◌∷◌, Bool, Distinct, In, All, arith, if◌then◌else◌, ℕ_discrete,
}
use sheep_cpp.Util.IntrusiveList.{Mem, front}
use sheep_cpp.Util.IntrusiveList.Ring.{Seg}
use sheep_cpp.Util.IntrusiveList.Walk.{head?, front-Seg}
use sheep_cpp.Util.IntrusiveList.Rings.{
  Rings, Distinct-ring, IsHead, taken, In-pushed, moved, moved_self, moved-keeps, move-Rings,
}
use sheep_cpp.Coroutine.Scheduler.{
  Scheduler, ◌>>=◌, free_head, suspend_head, yield_head, move_to, register_func, add_coroutine,
}

-- The scheduler's pointers are valid and its lists partition the coroutines.
pub record Wf (s : Scheduler) : Type 0 where
  pub lists : ℕ → List ℕ
  pub rings : Rings s.coro_num (s.coro_num + 4) s.mem lists
  pub total :
      (x : ℕ) → x < s.coro_num → (h : ℕ) × IsHead s.coro_num (s.coro_num + 4) h × In x (lists h)
  pub queued : All (λ c. c < s.coro_num) s.resume_queue
  pub sleepers : All (λ p. p.1 < s.coro_num) s.sleep_queue

-- The operation does not fault, and its result has the property.
abbrev pub Returns {ℓ} : {A : Type 0} → (A → Type ℓ) → Option A → Type ℓ
Returns {A = A} P o = (a : A) × (o ≡ some a) × P a

pub Returns-bind {ℓ κ} :
    {A B : Type 0} {P : A → Type ℓ} {Q : B → Type κ} (m : Option A) (f : A → Option B)
    → Returns P m
    → ((a : A) → P a → Returns Q (f a))
    → Returns Q (m >>= f)
Returns-bind m f (a, e, p) k = rw e (k a p)

pub Returns-if {ℓ} :
    {A : Type 0} {P : A → Type ℓ} (b : Bool) {x y : Option A}
    → Returns P x
    → Returns P y
    → Returns P (if b then x else y)
Returns-if true p q = p
Returns-if false p q = q

-- Those that wait to be resumed or to run again have a point to go on from, and the free ones none.
abbrev pub Apt : ℕ → (ℕ → Bool) → (ℕ → List ℕ) → ℕ → Type 0
Apt n ready lists y =
    ((In y (lists (suspend_head n)) ⊎ In y (lists (yield_head n))) → ready y ≡ true)
    × (In y (lists (free_head n)) → ready y ≡ false)

-- What is moved behind a head has what those behind it have.
abbrev pub Joins : ℕ → (ℕ → Bool) → ℕ → ℕ → Type 0
Joins n ready head x =
    ((suspend_head n ≡ head) ⊎ (yield_head n ≡ head) → ready x ≡ true)
    × (free_head n ≡ head → ready x ≡ false)

In-moved :
    (head x h y : ℕ) (lists : ℕ → List ℕ)
    → In y (moved head x lists h)
    → ((h ≡ head) × (y ≡ x)) ⊎ ((y ≢ x) × In y (lists h))
In-moved head x h y lists i = elim (In-pushed head x h y (taken x lists) i) [
  | inl e ↦ inl e
  | inr k ↦ let (m, n) = (In-without y x (lists h)).0 k in inr (n, m)
]

pub moved-Apt :
    (n head x : ℕ) (ready : ℕ → Bool) (lists : ℕ → List ℕ)
    → ((y : ℕ) → y ≢ x → Apt n ready lists y)
    → Joins n ready head x
    → (y : ℕ) → Apt n ready (moved head x lists) y
moved-Apt n head x ready lists a j y = (
  λ i. elim i [
    | inl k ↦ elim (In-moved head x (suspend_head n) y lists k) [
      | inl (e, q) ↦ subst (λ z. ready z ≡ true) (sym q) (j.0 (inl e))
      | inr (q, k) ↦ (a y q).0 (inl k)
    ]
    | inr k ↦ elim (In-moved head x (yield_head n) y lists k) [
      | inl (e, q) ↦ subst (λ z. ready z ≡ true) (sym q) (j.0 (inr e))
      | inr (q, k) ↦ (a y q).0 (inr k)
    ]
  ],
  λ k. elim (In-moved head x (free_head n) y lists k) [
    | inl (e, q) ↦ subst (λ z. ready z ≡ false) (sym q) (j.1 e)
    | inr (q, k) ↦ (a y q).1 k
  ],
)

-- Well formed, with the same array, the same coroutine running, and functions as the lists ask.
pub record At (n c : ℕ) (s : Scheduler) : Type 0 where
  pub wf : Wf s
  pub size : s.coro_num ≡ n
  pub running : s.current ≡ c
  pub apt : (y : ℕ) → Apt s.coro_num s.ready wf.lists y

-- Moving a coroutine puts it first on the list of `head`, and takes it off its old list.
pub move_to-lists :
    {s : Scheduler} (w : Wf s) (head x : ℕ)
    → IsHead s.coro_num (s.coro_num + 4) head
    → x < s.coro_num
    → (m : Mem) × (move_to head x s ≡ some (record s { mem = m }))
      × Rings s.coro_num (s.coro_num + 4) m (moved head x w.lists)
unfolding move_to
move_to-lists w head x i b =
    let (f, j, k) = w.total x b in
    let (m1, m2, e1, e2, r) = move-Rings w.rings f head x j i k in (m2, rw (e1, e2), r)

pub moved-total :
    {s : Scheduler} (w : Wf s) (head x : ℕ)
    → IsHead s.coro_num (s.coro_num + 4) head
    → (y : ℕ) → y < s.coro_num
    → (h : ℕ) × IsHead s.coro_num (s.coro_num + 4) h × In y (moved head x w.lists h)
moved-total w head x i y b =
    let (h, j, k) = w.total y b in
    elim (ℕ_discrete y x) [
      | yes q ↦ (head, i, rw q (moved_self head x w.lists))
      | no q ↦ (h, j, moved-keeps head x h y w.lists k q)
    ]

pub move_to-At :
    {n c : ℕ} {s : Scheduler} (head x : ℕ) (w : Wf s)
    → s.coro_num ≡ n
    → s.current ≡ c
    → ((y : ℕ) → y ≢ x → Apt s.coro_num s.ready w.lists y)
    → Joins s.coro_num s.ready head x
    → IsHead n (n + 4) head
    → x < n
    → Returns (λ t. At n c t × (t.ready ≡ s.ready)) (move_to head x s)
move_to-At {n} {c} {s} head x w size running apt joins i b =
    let j : IsHead s.coro_num (s.coro_num + 4) head = (omega arith, omega arith) in
    let (m, e, r) = move_to-lists w head x j (omega arith) in
    (
      record s { mem = m },
      e,
      (
        record {
          wf = record {
            lists = moved head x w.lists;
            rings = r;
            total = λ y l. moved-total w head x j y l;
            queued = w.queued;
            sleepers = w.sleepers;
          };
          size = size;
          running = running;
          apt = moved-Apt s.coro_num head x s.ready w.lists apt joins;
        },
        refl,
      ),
    )

-- A change to the fields that the lists do not depend on.
pub refit :
    {n c d : ℕ} {s : Scheduler} (a : At n c s) (t : Scheduler)
    → t.coro_num ≡ s.coro_num
    → t.mem ≡ s.mem
    → t.ready ≡ s.ready
    → t.current ≡ d
    → All (λ c. c < s.coro_num) t.resume_queue
    → All (λ p. p.1 < s.coro_num) t.sleep_queue
    → At n d t
refit {n} {c} {d} {s} a t e f l g q z = record {
  wf = record {
    lists = a.wf.lists;
    rings = rw (e, f) a.wf.rings;
    total = rw e a.wf.total;
    queued = rw e q;
    sleepers = rw e z;
  };
  size = e ∙ a.size;
  running = g;
  apt = rw (e, l) a.apt;
}

-- The free list decides what addCoroutine does: with none free it changes nothing and says so, else
-- it gives the first free coroutine the function and puts it first on the yield list.
abbrev pub Added : (s : Scheduler) → Wf s → ℕ → Type 0
Added s w func =
    ((w.lists (free_head s.coro_num) ≡ []) × (add_coroutine func s ≡ some (s, false)))
    ⊎ ((x : ℕ) × (xs : List ℕ) × (m : Mem) × (w.lists (free_head s.coro_num) ≡ x ∷ xs)
        × (add_coroutine func s ≡ some (record (register_func x func s) { mem = m }, true))
        × Rings s.coro_num (s.coro_num + 4) m (moved (yield_head s.coro_num) x w.lists))

-- On a well-formed scheduler: with no coroutine free, addCoroutine returns false and changes
-- nothing; else the first free one gets the function and is moved to the front of the yield list,
-- and the lists stay rings.
pub add_coroutine-Added : (s : Scheduler) (w : Wf s) (func : ℕ) → Added s w func
unfolding add_coroutine
add_coroutine-Added s w func = go (w.lists (free_head s.coro_num)) refl
  where
    free : IsHead s.coro_num (s.coro_num + 4) (free_head s.coro_num)
    free = (omega arith, omega arith)

    at_front :
        (l : List ℕ)
        → w.lists (free_head s.coro_num) ≡ l
        → front (free_head s.coro_num) s.mem ≡ head? l
    at_front l e =
        front-Seg s.mem (free_head s.coro_num) l
          (subst (λ k. Distinct (free_head s.coro_num ∷ k)) e (Distinct-ring w.rings _ free))
          (subst (λ k. Seg s.mem (free_head s.coro_num) k (free_head s.coro_num)) e
            (w.rings.seg _ free))

    go : (l : List ℕ) → w.lists (free_head s.coro_num) ≡ l → Added s w func
    go [] e = inl (e, rw (at_front [] e, add_coroutine))
    go (x ∷ xs) e =
        let b : x < s.coro_num =
          w.rings.nodes (free_head s.coro_num) x free (subst (In x) (sym e) (inl refl)) in
        let t = register_func x func s in
        let v : Wf t = record {
          lists = w.lists;
          rings = w.rings;
          total = w.total;
          queued = w.queued;
          sleepers = w.sleepers;
        } in
        let (m, f, r) = move_to-lists v (yield_head s.coro_num) x (omega arith, omega arith) b in
        inr (x, xs, m, e, rw (at_front (x ∷ xs) e, add_coroutine, f) refl, r)
