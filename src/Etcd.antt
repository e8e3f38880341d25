-- ===== src/Etcd.antt =====
-- src/extends/small_watcher/etcd/etcd.cpp: the client of etcd that keeps a key alive and watches a directory.
-- A callback that is yet to come is a task; a reply of the HttpClient and the end of a Timer are
-- events.
pub mod Replies
pub mod Run
pub mod Chains
pub mod Owned
pub mod Alive
pub mod Reached
pub mod Tests
use Prim.Native.String.{◌++◌ as ◌+++◌}
use sheep_cpp.Base.{
  ℕ, zero, suc, ◌+◌, ◌%◌, ◌^◌, Bool, true, false, Option, none, some, List, [], ◌∷◌, String,
  if◌then◌else◌, ◌==◌, ErrMsg, empty, is_empty, without,
}

-- What ends a List with an error.
pub data ListError : Type 0 where
  no_error : ListError
  -- the HttpClient's own
  client_failed : ErrMsg → ListError
  parse_failed : ℕ → ℕ → ListError
  error_code : ℕ → Option String → ListError
  invalid_index : ListError

-- A handler of List: the caller's, or the lambda of listWatch.
pub data ListHandler : Type 0 where
  user_list : ℕ → ListHandler
  list_watch : String → ℕ → ListHandler

-- A handler of WatchOnce: the caller's, or the lambda of watch.
pub data NotifyHandler : Type 0 where
  user_notify : ℕ → NotifyHandler
  watch_again : ℕ → String → ℕ → NotifyHandler

-- The onDone of an HttpClient.
pub data Task : Type 0 where
  creating refreshing : String → String → Task
  listing : ListHandler → Task
  watching : NotifyHandler → Task

pub record Request : Type 0 where
  pub id : ℕ
  pub method : String
  pub target : String
  pub body : String
  pub task : Task

-- The callback of a Timer.
pub data Alarm : Type 0 where
  create_later refresh_later : String → String → Alarm
  watch_later : ℕ → String → ℕ → Alarm

pub record Wait : Type 0 where
  pub id : ℕ
  pub ms : ℕ
  pub alarm : Alarm

-- A call of a handler that the user gave.
pub data Call : Type 0 where
  listed : ℕ → ListError → ℕ → List String → Call
  notified : ℕ → ErrMsg → Call

pub record Etcd : Type 0 where
  -- the address of the next object
  pub next_id : ℕ
  pub http_clients : List ℕ
  pub timers : List ℕ
  pub requests : List Request
  pub waits : List Wait
  -- newest first
  pub calls : List Call

unfoldable pub make_etcd : Etcd
make_etcd = record {
  next_id = 0;
  http_clients = [];
  timers = [];
  requests = [];
  waits = [];
  calls = [];
}

-- make_shared<HttpClient>, httpClients_.insert and DoReq
unfoldable pub do_req : String → String → String → Task → Etcd → Etcd
do_req method target body task s = record s {
  next_id = s.next_id + 1;
  http_clients = s.next_id ∷ s.http_clients;
  requests =
      record { id = s.next_id; method = method; target = target; body = body; task = task }
      ∷ s.requests;
}

-- make_shared<Timer>, timers_.insert and AsyncWait
unfoldable pub async_wait : ℕ → Alarm → Etcd → Etcd
async_wait ms alarm s = record s {
  next_id = s.next_id + 1;
  timers = s.next_id ∷ s.timers;
  waits = record { id = s.next_id; ms = ms; alarm = alarm } ∷ s.waits;
}

unfoldable pub erase_client : ℕ → Etcd → Etcd
erase_client id s = record s { http_clients = without id s.http_clients }

unfoldable pub next_create_ephemeral : String → String → Etcd → Etcd
unfolding async_wait
next_create_ephemeral path value s = async_wait 1000 (create_later path value) s

unfoldable pub next_refresh : String → String → Etcd → Etcd
unfolding async_wait
next_refresh path value s = async_wait 5000 (refresh_later path value) s

unfoldable pub create_ephemeral : String → String → ErrMsg → Etcd → Etcd
unfolding next_create_ephemeral do_req
create_ephemeral path value err s =
    if is_empty err
    then do_req "PUT" ("/v2/keys" +++ path) ("value=" +++ value +++ "&ttl=12") (creating path value)
        s
    else next_create_ephemeral path path s

unfoldable pub refresh : String → String → ErrMsg → Etcd → Etcd
unfolding next_create_ephemeral do_req
refresh path value err s =
    if is_empty err
    then do_req "PUT" ("/v2/keys" +++ path) ("value=" +++ value +++ "&ttl=12&refresh=true")
        (refreshing path value) s
    else next_create_ephemeral path value s

unfoldable pub list : String → ListHandler → Etcd → Etcd
unfolding do_req
list path handler s = do_req "GET" ("/v2/keys" +++ path +++ "/") "" (listing handler) s

-- The source leaves `after` out of the request.
unfoldable pub watch_once : ℕ → String → NotifyHandler → Etcd → Etcd
unfolding do_req
watch_once after path handler s =
    do_req "GET" ("/v2/keys" +++ path +++ "?wait=true&recursive=true") "" (watching handler) s

unfoldable pub watch : ℕ → String → ℕ → Etcd → Etcd
unfolding watch_once
watch after path func s = watch_once after path (watch_again after path func) s

unfoldable pub start_list_watch : String → ℕ → Etcd → Etcd
unfolding list
start_list_watch path func s = list path (list_watch path func) s
