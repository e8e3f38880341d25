-- ===== src/SmallClient/ClientChannel.antt =====
-- src/small_client/client_channel: client_channel.h and balancer.h, with the resolvers of
-- string_resolver.h and dns_resolver.h. Addresses are numbers in the order of the strings, a host
-- is a number, and `node` makes the address of an ip and a port.
use sheep_cpp.Base.{
  ℕ, ◌≡◌, ◌⊎◌, refl, ap, ◌∙◌, inl, inr, true, Option, none, some, List, [], ◌∷◌, if◌then◌else◌,
  ◌==◌, ltb, In, arith,
}
use sheep_cpp.SmallClient.ClientManager.{
  ClientPools, MakeClientHandler, find, mem, update, RandomLbPolicy, make_policy, update_keys, Got,
  not_ok, fault, key, get,
}
use sheep_cpp.SmallClient.ClientManager.Update.{made, or, find-update, get-GetsOneOf}

pub record ClientChannel : Type 0 where
  pub policy : RandomLbPolicy
  pub pools : ClientPools

unfoldable pub make_channel : ℕ → ClientChannel
unfolding make_policy
make_channel junk = record { policy = make_policy junk; pools = [] }

-- What the resolver calls on new addresses: the policy gets them, then the pools.
unfoldable pub on_nodes : MakeClientHandler → List ℕ → ClientChannel → ClientChannel
unfolding update_keys update
on_nodes handler nodes c = record c {
  policy = update_keys nodes c.policy;
  pools = update handler nodes c.pools;
}

-- std::set::insert
unfoldable pub insert_node : ℕ → List ℕ → List ℕ
insert_node k [] = k ∷ []
insert_node k (j ∷ js) =
    let rest = insert_node k js in
    if k == j then j ∷ js else (if ltb k j then k ∷ j ∷ js else j ∷ rest)

unfoldable pub insert_nodes : (ℕ → ℕ) → List ℕ → List ℕ → List ℕ
unfolding insert_node
insert_nodes node [] nodes = nodes
insert_nodes node (ip ∷ ips) nodes = insert_nodes node ips (insert_node (node ip) nodes)

-- DefaultDns::Resolver, on the addresses that gethostbyname gives: `hptr->h_addr` is the first.
unfoldable pub insert_first : ℕ → List ℕ → List ℕ → List ℕ
unfolding insert_node
insert_first first [] addrs = addrs
insert_first first (a ∷ bs) addrs = insert_first first bs (insert_node first addrs)

unfoldable pub resolver : Option (List ℕ) → List ℕ → List ℕ
unfolding insert_first
resolver none addrs = addrs
resolver (some []) addrs = addrs
resolver (some (a ∷ bs)) addrs = insert_first a (a ∷ bs) addrs

unfoldable pub resolve_all : (ℕ → Option (List ℕ)) → List ℕ → List ℕ → List ℕ
unfolding resolver
resolve_all gethostbyname [] addrs = addrs
resolve_all gethostbyname (host ∷ hosts) addrs =
    resolve_all gethostbyname hosts (resolver (gethostbyname host) addrs)

-- The resolvers; resolveOnce calls the handler only with an address.
pub data Resolver : Type 0 where
  string dns : List ℕ → Resolver

unfoldable pub notify :
    (ℕ → ℕ) → (ℕ → Option (List ℕ)) → MakeClientHandler → Resolver → ClientChannel → ClientChannel
unfolding on_nodes insert_nodes resolve_all
notify node gethostbyname handler (string ips) c = on_nodes handler (insert_nodes node ips []) c
notify node gethostbyname handler (dns hosts) c = elim (resolve_all gethostbyname hosts []) [
  | [] ↦ c
  | a ∷ bs ↦ on_nodes handler (insert_nodes node (a ∷ bs) []) c
]

-- What GetClientPool gives; `faults` where the policy does.
pub data Chosen : Type 0 where
  no_pool faults : Chosen
  pool : ℕ → Chosen

abbrev pub chosen : Option ℕ → Chosen
chosen none = no_pool
chosen (some p) = pool p

unfoldable pub pool_of : ClientPools → Got → Chosen
unfolding find
pool_of pools not_ok = no_pool
pool_of pools fault = faults
pool_of pools (key addr) = chosen (find addr pools)

-- GetClientPool, of the channel and of the client manager.
unfoldable pub get_client_pool : ℕ → ClientChannel → Chosen
unfolding get pool_of
get_client_pool random c = pool_of c.pools (get random c.policy)

mem-In : (k : ℕ) (ks : List ℕ) → In k ks → mem k ks ≡ true
unfolding mem
mem-In k [] h = absurd h
mem-In k (j ∷ js) (inl e) = ground (arith, e)
mem-In k (j ∷ js) (inr h) = let r = mem-In k js h in ground (arith, r)

-- After the resolver gives new addresses, whatever the channel was and the engine gives:
-- GetClientPool has no pool if there is no address, and else the pool of one of them, which is
-- the one that the address had before, else the one that the handler makes, and none if that
-- fails.
pub get_client_pool-on_nodes :
    (handler : MakeClientHandler) (nodes : List ℕ) (c : ClientChannel) (random : ℕ)
    → ((nodes ≡ []) × (get_client_pool random (on_nodes handler nodes c) ≡ no_pool))
      ⊎ ((k : ℕ) × In k nodes
          × (get_client_pool random (on_nodes handler nodes c)
              ≡ chosen (or (find k c.pools) (made handler k))))
unfolding get_client_pool on_nodes pool_of
get_client_pool-on_nodes handler nodes c random =
    let ps = update handler nodes c.pools in
    elim (get-GetsOneOf random nodes c.policy) [
      | inl (e, g) ↦ inl (e, ap (pool_of ps) g)
      | inr (k, g, h) ↦
          let f = find-update handler nodes c.pools k in
          let m = mem-In k nodes h in inr (k, h, ap (pool_of ps) g ∙ rw (f, m) refl)
    ]

insert_node_same : (k : ℕ) (ks : List ℕ) → insert_node k (k ∷ ks) ≡ k ∷ ks
unfolding insert_node
insert_node_same k ks = ground arith

-- However many addresses a single host has, a DNS resolver gives only the first.
resolve_first :
    (gethostbyname : ℕ → Option (List ℕ)) (host a : ℕ) (bs : List ℕ)
    → gethostbyname host ≡ some (a ∷ bs)
    → resolve_all gethostbyname (host ∷ []) [] ≡ a ∷ []
unfolding resolve_all resolver insert_first insert_node
resolve_first gethostbyname host a bs e = rw e (again bs)
  where
    again : (cs : List ℕ) → insert_first a cs (a ∷ []) ≡ a ∷ []
    again [] = refl
    again (b ∷ cs) = rw (insert_node_same a []) (again cs)
