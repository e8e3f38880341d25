-- ===== src/Grpc/Client/Tests.antt =====
-- Clients of src/small_server/grpc_client.h: one whose call fails, one without a channel, and one
-- that is asked by a callback.
use sheep_cpp.Base.{ℕ, ◌+◌, ◌≡◌, refl, Bool, true, false, some, List, [], ◌∷◌, ◌++◌, set_at, In}
use sheep_cpp.Grpc.Client.{
  GrpcClients, no_requests, do_req, do_all, answer, client_proceed, clean, proceed, Fresh, told,
  asks, comes, Reached, starts, next,
}
use sheep_cpp.Grpc.Client.Tally.{count}
use sheep_cpp.Grpc.Client.Answers.{requests_answered}

abbrev asked_two : GrpcClients
unfolding do_all
asked_two = do_all ((1, true) ∷ (2, false) ∷ []) no_requests

abbrev answered : GrpcClients
unfolding do_all answer
answered = do_all ((3, true) ∷ []) (told 0 true false [] asked_two)

abbrev failed : GrpcClients
failed = record answered { alive = set_at 0 false answered.alive }

failed-Reached : Reached (failed, 3 ∷ 2 ∷ 1 ∷ [])
unfolding proceed client_proceed clean answer do_all do_req no_requests
failed-Reached =
    next (next starts (asks {s = no_requests} ((1, true) ∷ (2, false) ∷ []) (refl, (refl, tt))))
      (comes {s = asked_two} {t = failed} [] [] 0 true false ((3, true) ∷ []) refl (refl, tt) refl)

requests_answered_example :
    ((us vs : List ℕ) (i : ℕ) (ok status : Bool) (calls : List (ℕ × Bool))
      → failed.pending ≡ us ++ i ∷ vs
      → Fresh calls (told i ok status (us ++ vs) failed)
      → (t : GrpcClients) × (proceed i ok status calls (record failed { pending = us ++ vs })
          ≡ some t))
    × ((i : ℕ) → failed.alive i ≡ true → In i failed.pending)
    × ((c : ℕ)
        → count (λ x. x) c (3 ∷ 2 ∷ 1 ∷ [])
          ≡ count (λ m. m.0) c failed.answers + count failed.owner c failed.pending)
requests_answered_example = requests_answered (failed, 3 ∷ 2 ∷ 1 ∷ []) failed-Reached
