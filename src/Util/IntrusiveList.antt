-- ===== src/Util/IntrusiveList.antt =====
-- src/util/intrusive_list.h: circular doubly linked lists with a head node, on explicit memory.
pub mod Ring
pub mod Walk
pub mod Rings
use sheep_cpp.Base.{
  ℕ, suc, zero, ◌+◌, ◌≡◌, Bool, true, false, Option, none, some, List, [], ◌∷◌, ◌++◌, if◌then◌else◌,
  ◌==◌,
}

-- `none` is nullptr.
pub record Mem : Type 0 where
  pub prev : ℕ → Option ℕ
  pub next : ℕ → Option ℕ

abbrev pub update : (ℕ → Option ℕ) → ℕ → Option ℕ → ℕ → Option ℕ
update f k v j = if j == k then v else f j

infixl 5 ◌>>=◌
abbrev ◌>>=◌ {ℓ κ} : {A : Type ℓ} {B : Type κ} → Option A → (A → Option B) → Option B
none >>= f = none
some a >>= f = f a

abbrev pub set_prev : ℕ → Option ℕ → Mem → Mem
set_prev k v m = record m { prev = update m.prev k v }

abbrev pub set_next : ℕ → Option ℕ → Mem → Mem
set_next k v m = record m { next = update m.next k v }

-- IntrusiveListInit
unfoldable pub init : ℕ → Mem → Mem
init head m = set_next head (some head) (set_prev head (some head) m)

-- IntrusiveListInsert; `none` is a dereference of nullptr
unfoldable pub insert : ℕ → ℕ → Mem → Option Mem
insert head node m = do
  let m1 = set_prev node (some head) m
  let m2 = set_next node (m1.next head) m1
  after ← m2.next head
  let m3 = set_prev after (some node) m2
  some (set_next head (some node) m3)

-- IntrusiveListRemove
unfoldable pub remove : ℕ → Mem → Option Mem
remove node m = do
  before ← m.prev node
  let m1 = set_next before (m.next node) m
  after ← m1.next node
  some (set_prev after (m1.prev node) m1)

-- IntrusiveListIsEmpty
unfoldable pub is_empty : ℕ → Mem → Bool
is_empty head m = elim (m.next head) [ none ↦ false | some n ↦ n == head ]

-- IntrusiveListFront
unfoldable pub front : ℕ → Mem → Option ℕ
unfolding is_empty
front head m = if is_empty head m then none else m.next head

-- The loop of IntrusiveListGetAllNodes; `none` is a null pointer, or fuel that ran out.
unfoldable pub collect : ℕ → ℕ → Option ℕ → Mem → Option (List ℕ)
collect zero head cur m = none
collect (suc fuel) head none m = none
collect (suc fuel) head (some cur) m =
    let rest = collect fuel head (m.next cur) m in
    if cur == head then some [] else (do xs ← rest; some (cur ∷ xs))

-- IntrusiveListGetAllNodes
unfoldable pub get_all_nodes : ℕ → ℕ → Mem → Option (List ℕ)
unfolding collect
get_all_nodes fuel head m = collect fuel head (m.next head) m
