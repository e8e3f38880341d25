-- ===== src/Grpc/Client.antt =====
-- The clients of src/small_server/grpc_client.h on the completion queue of grpc_looper.h, as ids.
-- A GrpcEvent is the tag of a call; it owns its client, which has a raw pointer to it.
pub mod Tally
pub mod Answers
pub mod Tests
use sheep_cpp.Base.{
  ℕ, suc, ◌≡◌, Bool, true, false, ◌&&◌, Option, none, some, List, [], ◌∷◌, ◌++◌, if◌then◌else◌,
  set_at, ErrMsg, empty, says,
}

pub record GrpcClients : Type 0 where
  -- how many GrpcEvents were made, which exist, and GrpcEvent::event_ of each
  pub made : ℕ
  pub alive : ℕ → Bool
  pub owner : ℕ → ℕ
  -- GrpcClient::event_
  pub event : ℕ → Option ℕ
  -- the tags in the completion queue
  pub pending : List ℕ
  -- the calls of onDone_
  pub answers : List (ℕ × ErrMsg)

unfoldable pub no_requests : GrpcClients
no_requests = record {
  made = 0;
  alive = λ i. false;
  owner = λ i. 0;
  event = λ c. none;
  pending = [];
  answers = [];
}

-- DoReq, where `ok` is what GetClientPool of the channel gives.
unfoldable pub do_req : ℕ → Bool → GrpcClients → GrpcClients
do_req c ok s =
    if ok
    then record s {
      made = suc s.made;
      alive = set_at s.made true s.alive;
      owner = set_at s.made c s.owner;
      event = set_at c (some s.made) s.event;
      pending = s.pending ++ s.made ∷ [];
    }
    else record s { answers = s.answers ++ (c, says "stub is nullptr") ∷ [] }

-- The requests that a callback makes, each with its channel's answer.
unfoldable pub do_all : List (ℕ × Bool) → GrpcClients → GrpcClients
unfolding do_req
do_all [] s = s
do_all ((c, ok) ∷ cs) s = do_all cs (do_req c ok s)

-- The call of onDone_ in Proceed, where `status` is status_.ok().
unfoldable pub answer : ℕ → Bool → Bool → GrpcClients → GrpcClients
answer c ok status s = record s {
  answers = s.answers ++ (c, if ok && status then empty else says "Grpc Client failed") ∷ [];
}

-- event_->Clean(); `none`: there is no event, or it was deleted.
unfoldable pub clean : Option ℕ → GrpcClients → Option GrpcClients
clean none s = none
clean (some i) s = if s.alive i then some (record s { alive = set_at i false s.alive }) else none

-- GrpcClient::Proceed, where onDone makes these requests.
unfoldable pub client_proceed : ℕ → Bool → Bool → List (ℕ × Bool) → GrpcClients → Option GrpcClients
unfolding answer do_all clean
client_proceed c ok status calls s =
    let s1 = do_all calls (answer c ok status s) in clean (s1.event c) s1

-- GrpcEvent::Proceed, on the tag that Next gives; `none`: something deleted was used.
unfoldable pub proceed : ℕ → Bool → Bool → List (ℕ × Bool) → GrpcClients → Option GrpcClients
unfolding client_proceed
proceed i ok status calls s =
    if s.alive i then client_proceed (s.owner i) ok status calls s else none

-- Each request is one of a client that has started no call yet.
abbrev pub Fresh : List (ℕ × Bool) → GrpcClients → Type 0
Fresh [] s = Unit
Fresh ((c, ok) ∷ cs) s = (s.event c ≡ none) × Fresh cs (do_req c ok s)

abbrev pub asked_by : List (ℕ × Bool) → List ℕ → List ℕ
asked_by [] asked = asked
asked_by ((c, ok) ∷ cs) asked = asked_by cs (c ∷ asked)

-- The clients, and those of the requests so far.
abbrev pub World : Type 0
World = GrpcClients × List ℕ

-- The state in which the callback of a tag makes its requests.
abbrev pub told : ℕ → Bool → Bool → List ℕ → GrpcClients → GrpcClients
told i ok status rest s = answer (s.owner i) ok status (record s { pending = rest })

-- Anybody makes requests at any time, and Next gives any tag of the queue.
infix 40 ◌⟶◌
pub data ◌⟶◌ : World → World → Type 0 where
  asks :
      {s : GrpcClients} {asked : List ℕ} (calls : List (ℕ × Bool))
      → Fresh calls s
      → (s, asked) ⟶ (do_all calls s, asked_by calls asked)
  comes :
      {s t : GrpcClients} {asked : List ℕ} (us vs : List ℕ) (i : ℕ) (ok status : Bool)
      (calls : List (ℕ × Bool))
      → s.pending ≡ us ++ i ∷ vs
      → Fresh calls (told i ok status (us ++ vs) s)
      → proceed i ok status calls (record s { pending = us ++ vs }) ≡ some t
      → (s, asked) ⟶ (t, asked_by calls asked)

pub data Reached : World → Type 0 where
  starts : Reached (no_requests, [])
  next : {v w : World} → Reached v → v ⟶ w → Reached w
