-- ===== src/Auth/TwoFactor/Tests.antt =====
-- The lock on the second factor on concrete data.
use minepanel_backend.Common.{◌≡◌, refl, [], ◌∷◌, arith, none}
use minepanel_backend.Http.{ok, err}
use minepanel_backend.Auth.TwoFactor.{
  TwoFactorFailure, record_two_factor_failure, record_failures_at, assert_two_factor_not_locked,
  locked_out,
}
use minepanel_backend.Auth.TwoFactor.Lockout.{record_two_factor_failure-locked}

abbrev of_bob : TwoFactorFailure
of_bob = record { user_id = "bob"; failures = 4; first_failure_at = 10; locked_until = none }

record_two_factor_failure-locked_example :
    (assert_two_factor_not_locked "ann" 905999 (
      record_two_factor_failure "ann" 6000
        (record_failures_at "ann" (1000 ∷ 2000 ∷ 3000 ∷ 4000 ∷ []) (of_bob ∷ [])))).0
    ≡ err locked_out
record_two_factor_failure-locked_example =
    record_two_factor_failure-locked "ann" 1000 (2000 ∷ 3000 ∷ 4000 ∷ []) 6000 905999 (of_bob ∷ [])
      refl (omega arith, (omega arith, (omega arith, tt))) (omega arith)

opens_again :
    (assert_two_factor_not_locked "ann" 906000 (
      record_two_factor_failure "ann" 6000
        (record_failures_at "ann" (1000 ∷ 2000 ∷ 3000 ∷ 4000 ∷ []) (of_bob ∷ [])))).0
    ≡ ok tt
unfolding assert_two_factor_not_locked record_two_factor_failure
opens_again = refl
