-- ===== src/SmallClient/ClientManager.antt =====
-- src/small_client/client_channel/client_manager.h and lb_policy/random_lb_policy.h. An address is a
-- number, in the order of the strings; a client pool is a number too. The handler that makes a pool,
-- and the random engine, are arguments.
pub mod Update
use sheep_cpp.Base.{
  ℕ, zero, suc, ◌%◌, Bool, true, false, not, ◌||◌, Option, none, some, List, [], ◌∷◌, if◌then◌else◌,
  ◌==◌, ltb, length, ErrMsg, empty, is_empty,
}

-- std::map<std::string, std::shared_ptr<ClientPoolT>>, in the order of the keys
abbrev pub ClientPools : Type 0
ClientPools = List (ℕ × ℕ)

-- MakeClientHandlerT
abbrev pub MakeClientHandler : Type 0
MakeClientHandler = ℕ → ErrMsg × ℕ

-- clientPools_.find
unfoldable pub find : ℕ → ClientPools → Option ℕ
find k [] = none
find k ((j, c) ∷ ps) = let rest = find k ps in if k == j then some c else rest

unfoldable pub put_sorted : ℕ → ℕ → ClientPools → ClientPools
put_sorted k c [] = (k, c) ∷ []
put_sorted k c ((j, d) ∷ ps) =
    let rest = put_sorted k c ps in if ltb k j then (k, c) ∷ (j, d) ∷ ps else (j, d) ∷ rest

-- clientPools_.insert, which keeps what is there
unfoldable pub insert : ℕ → ℕ → ClientPools → ClientPools
unfolding find put_sorted
insert k c ps = elim (find k ps) [ none ↦ put_sorted k c ps | some d ↦ ps ]

-- removeAddr
unfoldable pub remove_addr : ℕ → ClientPools → ClientPools
remove_addr k [] = []
remove_addr k ((j, c) ∷ ps) = let rest = remove_addr k ps in if k == j then rest else (j, c) ∷ rest

unfoldable pub add_addr : MakeClientHandler → ℕ → ClientPools → ClientPools
unfolding insert
add_addr handler k ps =
    let (err_msg, pool) = handler k in if not (is_empty err_msg) then ps else insert k pool ps

unfoldable pub mem : ℕ → List ℕ → Bool
mem k [] = false
mem k (j ∷ js) = (k == j) || mem k js

-- The first loop of Update.
unfoldable pub need_add : List ℕ → ClientPools → List ℕ
unfolding find
need_add [] ps = []
need_add (k ∷ nodes) ps =
    let rest = need_add nodes ps in elim (find k ps) [ none ↦ k ∷ rest | some c ↦ rest ]

-- The second loop.
unfoldable pub need_remove : List ℕ → ClientPools → List ℕ
unfolding mem
need_remove nodes [] = []
need_remove nodes ((k, c) ∷ ps) =
    let rest = need_remove nodes ps in if mem k nodes then rest else k ∷ rest

unfoldable pub add_all : MakeClientHandler → List ℕ → ClientPools → ClientPools
unfolding add_addr
add_all handler [] ps = ps
add_all handler (k ∷ ks) ps = add_all handler ks (add_addr handler k ps)

unfoldable pub remove_all : List ℕ → ClientPools → ClientPools
unfolding remove_addr
remove_all [] ps = ps
remove_all (k ∷ ks) ps = remove_all ks (remove_addr k ps)

unfoldable pub update : MakeClientHandler → List ℕ → ClientPools → ClientPools
unfolding need_add need_remove add_all remove_all
update handler nodes ps = remove_all (need_remove nodes ps) (add_all handler (need_add nodes ps) ps)

-- RandomLbPolicy::UpdateAllWithoutWeight; the size has no initial value.
pub record RandomLbPolicy : Type 0 where
  pub keys : List ℕ
  pub size : ℕ

unfoldable pub make_policy : ℕ → RandomLbPolicy
make_policy junk = record { keys = []; size = junk }

unfoldable pub update_keys : List ℕ → RandomLbPolicy → RandomLbPolicy
update_keys keys p = record { keys = keys; size = length keys }

abbrev pub get_elem? : List ℕ → ℕ → Option ℕ
get_elem? [] i = none
get_elem? (x ∷ xs) zero = some x
get_elem? (x ∷ xs) (suc i) = get_elem? xs i

-- What Get does: it says that there is none, it returns a key, or it faults.
pub data Got : Type 0 where
  not_ok fault : Got
  key : ℕ → Got

abbrev pub got : Option ℕ → Got
got none = fault
got (some k) = key k

-- RandomLbPolicy::Get, for a number that the engine gives; `% 0` is a fault.
unfoldable pub get : ℕ → RandomLbPolicy → Got
get random p =
    if p.size == 0
    then not_ok
    else if length p.keys == 0
    then fault
    else got (get_elem? p.keys (random % length p.keys))
