-- ===== src/Grpc/Tests.antt =====
-- A server of src/small_server on a request, its answer and its end.
use sheep_cpp.Base.{ℕ, ◌≡◌, ◌⊎◌, refl, inl, true, false, [], ◌∷◌, ◌++◌, set_at, In, Distinct}
use sheep_cpp.Grpc.{
  GrpcServer, create_event, run, service_proceed, server_proceed, proceed, finish, comes, finishes,
  Reached, runs, next,
}
use sheep_cpp.Grpc.Calls.{told}
use sheep_cpp.Grpc.Calls.Once.{calls_once}

-- The first request comes, the service finishes it, and the answer has been sent.
abbrev requested : GrpcServer
unfolding server_proceed service_proceed create_event run
requested = server_proceed 0 true (record run { pending = [] })

abbrev answered : GrpcServer
answered = record requested {
  finishing = set_at 0 true requested.finishing;
  pending = requested.pending ++ 0 ∷ [];
}

abbrev ended : GrpcServer
unfolding server_proceed service_proceed
ended = server_proceed 0 true (record answered { pending = 1 ∷ [] })

ended-Reached : Reached (ended, [])
unfolding proceed finish requested ended server_proceed service_proceed create_event run
ended-Reached =
    next
      (next (next runs (comes [] [] 0 true refl refl)) (finishes {t = answered} 0 (inl refl) refl))
      (comes (1 ∷ []) [] 0 true refl refl)

calls_once_example :
    ((i : ℕ) → In i ended.pending ⊎ In i [] → ended.alive i ≡ true)
    × ((c : ℕ) × In c ended.pending
        × (ended.processing c ≡ false)
        × ((i : ℕ) → In i ended.pending → ended.processing i ≡ false → i ≡ c))
    × Distinct (told ended)
    × ((i : ℕ) → ended.alive i ≡ true → In i ended.pending ⊎ In i [])
calls_once_example = calls_once (ended, []) ended-Reached
