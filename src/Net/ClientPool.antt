-- ===== src/Net/ClientPool.antt =====
-- src/net/client/client_pool.cpp: clients that are connected and not in use, and new ones for those that
-- are lost. A client is a number; of its connection the model has a Link.
pub mod Size
pub mod Lent
use sheep_cpp.Base.{
  ℕ, zero, suc, ◌+◌, ◌<◌, ◌≡◌, ◌⊎◌, Bool, true, false, Option, none, some, List, [], ◌∷◌,
  if◌then◌else◌, ◌==◌, ErrMsg, empty, says, is_empty, set_at, take_one, without,
}

-- The connection of a client: none yet; one in use; one that is finished; one that was reset after it
-- was finished, which has no event.
pub data Link : Type 0 where
  connecting up down revived : Link

pub record ClientPool : Type 0 where
  pub max_size : ℕ
  pub clients : List ℕ
  pub all_clients : List ℕ
  pub inited : Bool
  -- the address of the next client
  pub next_id : ℕ
  pub link : ℕ → Link

unfoldable pub make_pool : ℕ → ClientPool
make_pool max_size = record {
  max_size = max_size;
  clients = [];
  all_clients = [];
  inited = false;
  next_id = 0;
  link = λ id. connecting;
}

-- initClient; both handlers are set, so AsyncConnect leaves no message.
unfoldable pub init_client : ClientPool → ClientPool
init_client p = record p {
  next_id = p.next_id + 1;
  all_clients = p.next_id ∷ p.all_clients;
  link = set_at p.next_id connecting p.link;
}

-- The loop of Init.
unfoldable pub init_clients : ℕ → ClientPool → ClientPool
unfolding init_client
init_clients zero p = p
init_clients (suc n) p = init_clients n (init_client p)

unfoldable pub init : ClientPool → ClientPool × ErrMsg
unfolding init_clients
init p =
    if p.inited
    then (p, says "ClientPool has been inited")
    else (init_clients p.max_size (record p { inited = true }), empty)

-- The disconnected handler of client `id`.
unfoldable pub on_disconnected : ℕ → ErrMsg → ClientPool → ClientPool
unfolding init_client
on_disconnected id e p =
    if is_empty e
    then p
    else (let p' = init_client p in
        record p' { clients = without id p'.clients; all_clients = without id p'.all_clients })

-- TcpConnection::Finish of a client, which calls the disconnected handler once.
unfoldable pub finish_client : ℕ → ErrMsg → ClientPool → ClientPool
unfolding on_disconnected
finish_client id e p = on_disconnected id e (record p { link = set_at id down p.link })

-- Client::Reset; `none`: there is no connection.
unfoldable pub reset_client : ℕ → ErrMsg → ClientPool → Option ClientPool
unfolding finish_client
reset_client id e p = elim (p.link id) [
  | connecting ↦ none
  | up ↦ some (if is_empty e then p else finish_client id e p)
  | down ↦ some (if is_empty e then record p { link = set_at id revived p.link } else p)
  | revived ↦ some (if is_empty e then p else finish_client id e p)
]

-- clients_.insert
unfoldable pub insert_client : ℕ → ClientPool → ClientPool
insert_client id p = record p { clients = id ∷ without id p.clients }

unfoldable pub insert : ℕ → ErrMsg → ClientPool → Option ClientPool
unfolding reset_client insert_client
insert id e p = elim (reset_client id e p) [
  | none ↦ none
  | some p' ↦ some (if is_empty e then insert_client id p' else p')
]

-- The connected handler of client `id`.
unfoldable pub on_connected : ℕ → ErrMsg → ClientPool → Option ClientPool
unfolding insert
on_connected id e p = if is_empty e then insert id empty p else some p

-- Get; the set is in the order of the addresses, so `k` chooses.
unfoldable pub get : ℕ → ClientPool → Option (ℕ × ClientPool)
unfolding take_one
get k p = elim (take_one k p.clients) [
  | none ↦ none
  | some (id, rest) ↦ some (id, record p { clients = rest })
]

infix 40 ◌⟶◌
-- What the clients and the users of a pool do. A user gives back a client whose connection is in use, or
-- one with an error.
pub data ◌⟶◌ : ClientPool → ClientPool → Type 0 where
  connected :
      {p q : ClientPool} (id : ℕ)
      → id < p.next_id
      → p.link id ≡ connecting
      → on_connected id empty (record p { link = set_at id up p.link }) ≡ some q
      → p ⟶ q
  -- the attempt to connect fails; the connection breaks
  lost :
      {p q : ClientPool} (id : ℕ) (e : ErrMsg)
      → id < p.next_id
      → (p.link id ≡ connecting) ⊎ (p.link id ≡ up)
      → is_empty e ≡ false
      → finish_client id e p ≡ q
      → p ⟶ q
  taken : {p q : ClientPool} (k id : ℕ) → get k p ≡ some (id, q) → p ⟶ q
  given_back :
      {p q : ClientPool} (id : ℕ) (e : ErrMsg)
      → id < p.next_id
      → (p.link id ≡ up) ⊎ ((p.link id ≡ down) × (is_empty e ≡ false))
      → insert id e p ≡ some q
      → p ⟶ q

-- The pools that come of Init.
pub data Reached (n : ℕ) : ClientPool → Type 0 where
  inited_pool : Reached n (init (make_pool n)).0
  next : {p q : ClientPool} → Reached n p → p ⟶ q → Reached n q
