-- ===== src/Gateway/Reservations/Tests.antt =====
-- The waiting connections at concrete events.
use minepanel_backend.Common.{◌≡◌, refl, true, false, [], ◌∷◌, arith}
use minepanel_backend.Gateway.Reservations.{
  Reservations, reserve, claim, release, on_module_destroy, connect, authenticate, expire,
  shut_down, happen, run,
}
use minepanel_backend.Gateway.Reservations.Slots.{IsSmall, run-IsSmall}
use minepanel_backend.Gateway.Reservations.Claims.{claim-run-claim}

reservations_run : Unit {0}
unfolding reserve claim release on_module_destroy happen
reservations_run = tt

abbrev empty : Reservations
empty = record { pending = []; closed = [] }

-- a second connection with the same id and one without an id are closed, and so is a late one
closes :
    (run (connect "a" ∷ connect "a" ∷ connect "" ∷ connect "b" ∷ expire "a" ∷ []) empty).closed
    ≡ "a" ∷ "" ∷ "a" ∷ []
unfolding reservations_run
closes = refl

empties : (run (connect "a" ∷ connect "b" ∷ shut_down ∷ []) empty).pending ≡ []
unfolding reservations_run
empties = refl

run-IsSmall_example : IsSmall (run (connect "a" ∷ authenticate "a" ∷ []) empty)
run-IsSmall_example = run-IsSmall (connect "a" ∷ authenticate "a" ∷ []) empty (omega arith)

abbrev one : Reservations
one = record { pending = record { id = "a"; claimed = false } ∷ []; closed = [] }

claims_first : (claim "a" one).0 ≡ true
unfolding reservations_run
claims_first = refl

claim-run-claim_example :
    (claim "a" (run (connect "b" ∷ expire "b" ∷ []) (claim "a" one).1)).0 ≡ false
claim-run-claim_example =
    claim-run-claim "a" (connect "b" ∷ expire "b" ∷ []) one claims_first (refl, (refl, tt))
