-- ===== src/Auth/TwoFactor/Lockout.antt =====
-- src/auth/auth.service.ts: when the second factor of an account is locked.
use minepanel_backend.Common.{
  ℕ, zero, suc, ap, ◌∙◌, ◌+◌, ◌<◌, String, ◌≡◌, refl, subst, Bool, true, false, ◌&&◌, none, some,
  List, [], ◌∷◌, length, All, arith, ltb, leb, if◌then◌else◌, ==-refl, Bool-cases, inl, inr,
  string_eq,
}
use minepanel_backend.Http.{ok, err}
use minepanel_backend.Auth.TwoFactor.{
  TwoFactorFailure, two_factor_failure_limit, two_factor_attempt_window_ms, two_factor_lockout_ms,
  failure_of, assert_two_factor_not_locked, counted, new_failure, record_two_factor_failure,
  record_failures_at, locked_out,
}

record_two_factor_failure-own :
    (id : String) (now : ℕ) (fs : List TwoFactorFailure)
    → failure_of id (record_two_factor_failure id now fs)
      ≡ some (new_failure id now (counted now (failure_of id fs)))
unfolding record_two_factor_failure
record_two_factor_failure-own id now fs = rw (==-refl id) refl

-- the account has `n` failures since `first`
record HasFailed (id : String) (n first : ℕ) (fs : List TwoFactorFailure) : Type 0 where
  entry : TwoFactorFailure
  found : failure_of id fs ≡ some entry
  failures : entry.failures ≡ n
  since : entry.first_failure_at ≡ first

abbrev pub InAttemptWindow : ℕ → ℕ → Type 0
InAttemptWindow first t = t < first + two_factor_attempt_window_ms

counted-within :
    (now n first : ℕ) (f : TwoFactorFailure)
    → f.failures ≡ n
    → f.first_failure_at ≡ first
    → InAttemptWindow first now
    → counted now (some f) ≡ (suc n, first)
counted-within now n first f many since fresh = ground arith

one_add : (n : ℕ) → 1 + n ≡ suc n
one_add n = omega arith

module _ (id : String) where
  record_two_factor_failure-HasFailed :
      (now n first : ℕ) (fs : List TwoFactorFailure)
      → HasFailed id n first fs
      → InAttemptWindow first now
      → HasFailed id (suc n) first (record_two_factor_failure id now fs)
  record_two_factor_failure-HasFailed now n first fs h fresh = record {
    entry = new_failure id now (suc n, first);
    found =
        record_two_factor_failure-own id now fs
        ∙ ap (λ o. some (new_failure id now (counted now o))) h.found
        ∙ ap (λ c. some (new_failure id now c))
            (counted-within now n first h.entry h.failures h.since fresh);
    failures = refl;
    since = refl;
  }

  record_failures_at-HasFailed :
      (ts : List ℕ) (n first : ℕ) (fs : List TwoFactorFailure)
      → HasFailed id n first fs
      → All (InAttemptWindow first) ts
      → HasFailed id (n + length ts) first (record_failures_at id ts fs)
  record_failures_at-HasFailed [] n first fs h fresh =
      subst (λ k. HasFailed id k first fs) (omega arith) h
  record_failures_at-HasFailed (t ∷ ts) n first fs h fresh =
      subst (λ k. HasFailed id k first (record_failures_at id (t ∷ ts) fs)) (omega arith)
        (record_failures_at-HasFailed ts (suc n) first (record_two_factor_failure id t fs)
          (record_two_factor_failure-HasFailed t n first fs h fresh.0) fresh.1)

  first_failure-HasFailed :
      (first : ℕ) (fs : List TwoFactorFailure)
      → failure_of id fs ≡ none
      → HasFailed id 1 first (record_two_factor_failure id first fs)
  first_failure-HasFailed first fs clean = record {
    entry = new_failure id first (1, first);
    found =
        record_two_factor_failure-own id first fs
        ∙ ap (λ o. some (new_failure id first (counted first o))) clean;
    failures = refl;
    since = refl;
  }

  -- the entry after the failures at `first`, at `ts` and at `last`
  attempts-failure_of :
      (first : ℕ) (ts : List ℕ) (last : ℕ) (fs : List TwoFactorFailure)
      → failure_of id fs ≡ none
      → All (InAttemptWindow first) ts
      → InAttemptWindow first last
      → failure_of id (record_two_factor_failure id last (record_failures_at id (first ∷ ts) fs))
        ≡ some (new_failure id last (suc (suc (length ts)), first))
  attempts-failure_of first ts last fs clean fresh soon =
      let before =
        record_failures_at-HasFailed ts 1 first (record_two_factor_failure id first fs)
          (first_failure-HasFailed first fs clean) fresh in
      record_two_factor_failure-own id last _
      ∙ ap (λ o. some (new_failure id last (counted last o))) before.found
      ∙ ap (λ c. some (new_failure id last c))
          (counted-within last (suc (length ts)) first before.entry
            (before.failures ∙ one_add (length ts)) before.since soon)

assert_two_factor_not_locked-at :
    (id : String) (now until : ℕ) (locks : Bool) (fs : List TwoFactorFailure) (f : TwoFactorFailure)
    → failure_of id fs ≡ some f
    → f.locked_until ≡ (if locks then some until else none)
    → (assert_two_factor_not_locked id now fs).0
      ≡ (if locks && ltb now until then err locked_out else ok tt)
unfolding assert_two_factor_not_locked
assert_two_factor_not_locked-at id now until false fs f e l = rw (e, l) refl
assert_two_factor_not_locked-at id now zero true fs f e l =
    let past : ltb now 0 ≡ false = ground arith in rw (e, l, past) refl
assert_two_factor_not_locked-at id now (suc until) true fs f e l =
    elim (Bool-cases (ltb now (suc until))) [
      | inl early ↦ rw (e, l, early) refl
      | inr late ↦ rw (e, l, late) refl
    ]

-- Whatever other accounts did before: an account without failures whose second factor fails twice or
-- more, all within ten minutes after the first, is refused its next attempt exactly if there were
-- five failures or more and fifteen minutes have not passed since the last of them.
pub record_two_factor_failure-locked :
    (id : String) (first : ℕ) (ts : List ℕ) (last now : ℕ) (fs : List TwoFactorFailure)
    → failure_of id fs ≡ none
    → All (InAttemptWindow first) ts
    → InAttemptWindow first last
    → (assert_two_factor_not_locked id now
        (record_two_factor_failure id last (record_failures_at id (first ∷ ts) fs))).0
      ≡ (if leb two_factor_failure_limit (suc (suc (length ts)))
            && ltb now (last + two_factor_lockout_ms)
          then err locked_out
          else ok tt)
record_two_factor_failure-locked id first ts last now fs clean fresh soon =
    assert_two_factor_not_locked-at id now (last + two_factor_lockout_ms)
      (leb two_factor_failure_limit (suc (suc (length ts)))) _ _
      (attempts-failure_of id first ts last fs clean fresh soon) refl
