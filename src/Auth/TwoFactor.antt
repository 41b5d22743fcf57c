-- ===== src/Auth/TwoFactor.antt =====
-- src/auth/auth.service.ts: failed second factors by account, and the lock that they bring.
pub mod Lockout
mod Tests
use minepanel_backend.Common.{
  [], zero, ℕ, suc, ◌+◌, ◌-◌, ◌*◌, String, Bool, true, false, not, Option, none, some, List, ◌∷◌,
  filter, find, ltb, leb, ◌==◌, if◌then◌else◌, string_eq,
}
use minepanel_backend.Http.{Exception, Result, ok, err, too_many_requests}

abbrev pub two_factor_failure_limit : ℕ
two_factor_failure_limit = 5

abbrev pub two_factor_attempt_window_ms : ℕ
two_factor_attempt_window_ms = 10 * 60 * 1000

abbrev pub two_factor_lockout_ms : ℕ
two_factor_lockout_ms = 15 * 60 * 1000

-- an entry of the map, with its key
pub record TwoFactorFailure : Type 0 where
  pub user_id : String
  pub failures : ℕ
  pub first_failure_at : ℕ
  pub locked_until : Option ℕ

abbrev pub is_failure_of : String → TwoFactorFailure → Bool
is_failure_of user_id f = f.user_id == user_id

-- `twoFactorFailures.get`, `.delete` and `.set`; nothing reads the order of the map
abbrev pub failure_of : String → List TwoFactorFailure → Option TwoFactorFailure
failure_of user_id fs = find (is_failure_of user_id) fs

unfoldable pub clear : String → List TwoFactorFailure → List TwoFactorFailure
clear user_id fs = filter (λ f. not (is_failure_of user_id f)) fs

unfoldable pub put : TwoFactorFailure → List TwoFactorFailure → List TwoFactorFailure
unfolding clear
put f fs = f ∷ clear f.user_id fs

abbrev pub locked_out : Exception
locked_out = too_many_requests "Two-factor authentication is temporarily locked"

abbrev pub locked_result :
    String → ℕ → Option ℕ → List TwoFactorFailure → Result (Unit {0}) × List TwoFactorFailure
locked_result user_id now none fs = (ok tt, fs)
locked_result user_id now (some zero) fs = (ok tt, fs)
locked_result user_id now (some (suc until)) fs =
    if ltb now (suc until) then (err locked_out, fs) else (ok tt, clear user_id fs)

abbrev pub locked_until_of : Option TwoFactorFailure → Option ℕ
locked_until_of none = none
locked_until_of (some f) = f.locked_until

-- `assertTwoFactorNotLocked`
unfoldable pub assert_two_factor_not_locked :
    String → ℕ → List TwoFactorFailure → Result (Unit {0}) × List TwoFactorFailure
unfolding clear
assert_two_factor_not_locked user_id now fs =
    locked_result user_id now (locked_until_of (failure_of user_id fs)) fs

-- the failures and the time of the first one in the window, this one counted
abbrev pub counted : ℕ → Option TwoFactorFailure → ℕ × ℕ
counted now none = (1, now)
counted now (some f) =
    if ltb (now - f.first_failure_at) two_factor_attempt_window_ms
    then (suc f.failures, f.first_failure_at)
    else (1, now)

abbrev pub new_failure : String → ℕ → ℕ × ℕ → TwoFactorFailure
new_failure user_id now (failures, first) = record {
  user_id = user_id;
  failures = failures;
  first_failure_at = first;
  locked_until =
      if leb two_factor_failure_limit failures then some (now + two_factor_lockout_ms) else none;
}

-- `recordTwoFactorFailure`
unfoldable pub record_two_factor_failure :
    String → ℕ → List TwoFactorFailure → List TwoFactorFailure
unfolding put
record_two_factor_failure user_id now fs =
    put (new_failure user_id now (counted now (failure_of user_id fs))) fs

-- failures of one account at the given times
abbrev pub record_failures_at : String → List ℕ → List TwoFactorFailure → List TwoFactorFailure
record_failures_at user_id [] fs = fs
record_failures_at user_id (t ∷ ts) fs =
    record_failures_at user_id ts (record_two_factor_failure user_id t fs)
