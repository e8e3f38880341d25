-- ===== src/Grpc.antt =====
-- src/small_server: the server of one service on grpc_looper.h, grpc_server.h and grpc_service.h.
-- A GrpcEvent, which is the tag of a call in the completion queue, owns the GrpcServerEvent of the
-- call and this its GrpcServiceEvent, so the three have one id, and exist together: the pointer
-- myself_ is dropped where the GrpcEvent is deleted.
pub mod Calls
pub mod Client
pub mod Tests
use sheep_cpp.Base.{
  ℕ, suc, ◌≡◌, Bool, true, false, Option, none, some, List, [], ◌∷◌, ◌++◌, if◌then◌else◌, set_at,
  In, without, ErrMsg, empty, says,
}

pub record GrpcServer : Type 0 where
  -- how many GrpcEvents were made, and which exist
  pub made : ℕ
  pub alive : ℕ → Bool
  -- GrpcServerEvent::status_ is PROCESSING
  pub processing : ℕ → Bool
  -- GrpcServiceEvent::status_ is FINISH
  pub finishing : ℕ → Bool
  -- the tags in the completion queue
  pub pending : List ℕ
  -- the calls of OnMessage
  pub messages : List (ℕ × ErrMsg)

-- new GrpcEvent, GrpcServerEvent::Init, CreateEvent and RequestHandler
unfoldable pub create_event : GrpcServer → GrpcServer
create_event s = record s {
  made = suc s.made;
  alive = set_at s.made true s.alive;
  processing = set_at s.made false s.processing;
  finishing = set_at s.made false s.finishing;
  pending = s.pending ++ s.made ∷ [];
}

-- GrpcServer::Run, for the one service.
unfoldable pub run : GrpcServer
unfolding create_event
run = create_event (record {
  made = 0;
  alive = λ i. false;
  processing = λ i. false;
  finishing = λ i. false;
  pending = [];
  messages = [];
})

-- GrpcServiceEvent::Proceed, with Clean where the call is over.
unfoldable pub service_proceed : ℕ → Bool → GrpcServer → GrpcServer
service_proceed i ok s =
    if s.finishing i then record s { alive = set_at i false s.alive } else record s {
      finishing = set_at i true s.finishing;
      messages = s.messages ++ (i, if ok then empty else says "canceled") ∷ [];
    }

-- GrpcServerEvent::Proceed: the first time it makes the event of the next request.
unfoldable pub server_proceed : ℕ → Bool → GrpcServer → GrpcServer
unfolding create_event service_proceed
server_proceed i ok s =
    if s.processing i
    then service_proceed i ok s
    else service_proceed i ok (create_event (record s { processing = set_at i true s.processing }))

-- The body of the looper's loop, on the tag that Next gives; `none`: the GrpcEvent was deleted.
unfoldable pub proceed : ℕ → Bool → GrpcServer → Option GrpcServer
unfolding server_proceed
proceed i ok s = if s.alive i then some (server_proceed i ok s) else none

-- GrpcServiceEvent::Finish
unfoldable pub finish : ℕ → GrpcServer → Option GrpcServer
finish i s =
    if s.alive i
    then some (record s { finishing = set_at i true s.finishing; pending = s.pending ++ i ∷ [] })
    else none

-- The server, and the calls that OnMessage got and the service has not finished.
abbrev pub World : Type 0
World = GrpcServer × List ℕ

abbrev pub heard : ℕ → World → List ℕ
heard i (s, given) = if s.finishing i then given else i ∷ given

-- Next gives any tag of the queue, ok or not; the service finishes a call that it got, in OnMessage
-- or at any later time, once.
infix 40 ◌⟶◌
pub data ◌⟶◌ : World → World → Type 0 where
  comes :
      {s t : GrpcServer} {given : List ℕ} (us vs : List ℕ) (i : ℕ) (ok : Bool)
      → s.pending ≡ us ++ i ∷ vs
      → proceed i ok (record s { pending = us ++ vs }) ≡ some t
      → (s, given) ⟶ (t, heard i (s, given))
  finishes :
      {s t : GrpcServer} {given : List ℕ} (i : ℕ)
      → In i given
      → finish i s ≡ some t
      → (s, given) ⟶ (t, without i given)

pub data Reached : World → Type 0 where
  runs : Reached (run, [])
  next : {v w : World} → Reached v → v ⟶ w → Reached w
