-- ===== src/Etcd/Tests.antt =====
-- The theorems on src/extends/small_watcher/etcd/etcd.cpp at concrete inputs.
use sheep_cpp.Base.{
  ℕ, ◌≡◌, ◌↔◌, refl, inl, inr, true, false, Option, none, some, List, [], ◌∷◌, String, empty, says,
  In,
}
use sheep_cpp.Etcd.{Etcd, make_etcd, create_later}
use sheep_cpp.Etcd.Replies.{missing, has, Reply}
use sheep_cpp.Etcd.Run.{Event, call_create, call_list_watch, done, fired, run}
use sheep_cpp.Etcd.Chains.{pending, begun, list_watches_kept}
use sheep_cpp.Etcd.Owned.{request_ids, wait_ids}
use sheep_cpp.Etcd.Reached.{callbacks_alive, ephemerals_last}

-- The one header of the tests.
abbrev stoll_12 : String → Option ℕ
stoll_12 s = some 12

abbrev accepted : Reply
accepted = record {
  err = empty;
  doc = record {
    parse_error = none;
    is_object = true;
    code = missing;
    message = missing;
    node = has (has (has "/a" ∷ []));
  };
  header = some "12";
}

abbrev broken : Reply
broken = record {
  err = says "broken";
  doc = record {
    parse_error = none;
    is_object = false;
    code = missing;
    message = missing;
    node = missing;
  };
  header = none;
}

-- A key is made, and its refresh breaks.
abbrev key_life : List Event
key_life = call_create "/a" "v" ∷ done 0 accepted false ∷ fired 1 empty ∷ done 2 broken false ∷ []

-- The path stands where the value was.
key_life_ends :
    (run stoll_12 key_life make_etcd)
    ≡ some (record {
      next_id = 4;
      http_clients = 0 ∷ [];
      timers = 3 ∷ [];
      requests = [];
      waits = record { id = 3; ms = 1000; alarm = create_later "/a" "/a" } ∷ [];
      calls = [];
    })
unfolding run make_etcd
key_life_ends = refl

ephemerals_last_example :
    (t : Etcd) × (run stoll_12 key_life make_etcd ≡ some t) × (pending 1 0 t ≡ begun 1 0 key_life)
unfolding run make_etcd
ephemerals_last_example =
    ephemerals_last stoll_12 key_life (tt, (inr (_, refl), (tt, (inl refl, tt))))

-- A directory is listed and watched; the watch breaks.
abbrev directory_life : List Event
directory_life = call_list_watch "/d" 5 ∷ done 0 accepted false ∷ done 1 broken false ∷ []

abbrev directory_end : Etcd
directory_end = elim (run stoll_12 directory_life make_etcd) [ none ↦ make_etcd | some t ↦ t ]

directory_life_ends : run stoll_12 directory_life make_etcd ≡ some directory_end
unfolding run make_etcd
directory_life_ends = refl

list_watches_kept_example : pending 0 1 directory_end ≡ begun 0 1 directory_life
list_watches_kept_example =
    list_watches_kept stoll_12 directory_life directory_end (refl, (refl, (refl, tt)))
      directory_life_ends

callbacks_alive_example :
    ((x : ℕ) → In x (request_ids directory_end) → In x directory_end.http_clients)
    × ((x : ℕ) → In x directory_end.timers ↔ In x (wait_ids directory_end))
callbacks_alive_example = callbacks_alive stoll_12 directory_life directory_end directory_life_ends
