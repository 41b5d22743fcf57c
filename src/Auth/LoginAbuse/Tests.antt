-- ===== src/Auth/LoginAbuse/Tests.antt =====
-- The limits on failed sign-ins at concrete attempts.
use minepanel_backend.Common.{
  List, sym, ◌∙◌, Bool-cases, inl, inr, if◌then◌else◌, ◌==◌, string_eq, ◌≤◌, ◌≡◌, refl, String,
  length, [], ◌∷◌, arith,
}
use minepanel_backend.Http.{ok, err, too_many_requests}
use minepanel_backend.Text.{classes, count_chars, trim, slice, starts_with}
use minepanel_backend.Auth.LoginAbuse.{
  LoginAttemptContext, max_pair_entries, max_account_entries, evict, bump, normalize,
  assert_allowed, record_failure, record_success,
}
use minepanel_backend.Auth.LoginAbuse.Bounds.{record_failure-bounded}
use minepanel_backend.Auth.LoginAbuse.Lockout.{
  Attempt, no_failures, record_attempts, count, of_account, of_account_and_source, answer,
  record_attempts-assert_allowed,
}

abuse_run : Unit {0}
unfolding trim slice starts_with evict bump normalize assert_allowed record_failure record_success
abuse_run = tt

abbrev same : String → String
same s = s

abbrev ann : LoginAttemptContext
ann = record { identifier = " ann "; source = "10.0.0.1" }

-- a success forgets the failures of the account
forgets :
    record_success same same ann (record_attempts same same ((ann, 1) ∷ (ann, 2) ∷ []) no_failures)
    ≡ no_failures
unfolding abuse_run
forgets = refl

record_failure-bounded_example :
    (length (record_failure same same ann 7 no_failures).pair_failures ≤ max_pair_entries)
    × (length (record_failure same same ann 7 no_failures).account_failures ≤ max_account_entries)
record_failure-bounded_example = record_failure-bounded same same ann 7 no_failures

-- a digest whose values have one length
abbrev mark : String → String
mark text = if text == "10.0.0.1" then "a" else "b"

mark-size : (text : String) → count_chars (mark text) ≡ 1
unfolding classes
mark-size text = elim (Bool-cases (text == "10.0.0.1")) [
  | inl own ↦ rw own refl
  | inr other ↦ rw other refl
]

abbrev elsewhere : LoginAttemptContext
elsewhere = record { identifier = "ann"; source = "7.7.7.7" }

-- six failures of the account, five of them from its usual source
abbrev guesses : List Attempt
guesses = (ann, 10) ∷ (ann, 20) ∷ (elsewhere, 25) ∷ (ann, 30) ∷ (ann, 40) ∷ (ann, 50) ∷ []

refused_there :
    (assert_allowed same mark ann 60 (record_attempts same mark guesses no_failures)).0
    ≡ err (too_many_requests "LoginRateLimited")
unfolding abuse_run
refused_there = refl

delayed_elsewhere :
    (assert_allowed same mark elsewhere 60 (record_attempts same mark guesses no_failures)).0
    ≡ ok 10
unfolding abuse_run
delayed_elsewhere = refl

record_attempts-assert_allowed_example :
    (assert_allowed same mark ann 60 (record_attempts same mark guesses no_failures)).0
    ≡ answer
        (count (of_account_and_source same mark ann) guesses)
        (count (of_account same mark ann) guesses)
record_attempts-assert_allowed_example =
    record_attempts-assert_allowed same mark (λ a b. mark-size a ∙ sym (mark-size b)) 10 60 ann
      guesses (omega arith)
      (
        (omega arith, omega arith),
        (
          (omega arith, omega arith),
          (
            (omega arith, omega arith),
            (
              (omega arith, omega arith),
              ((omega arith, omega arith), ((omega arith, omega arith), tt)),
            ),
          ),
        ),
      )
      (omega arith)
