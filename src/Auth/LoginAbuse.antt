-- ===== src/Auth/LoginAbuse.antt =====
-- src/auth/login-abuse.service.ts: failed sign-ins by account and by account and source.
pub mod Bounds
pub mod Window
pub mod Keys
pub mod Lockout
mod Tests
use Prim.Native.String
use minepanel_backend.Common.{
  ℕ, suc, ◌+◌, ◌-◌, ◌*◌, String, Bool, true, false, not, Option, none, some, List, [], ◌∷◌, ◌++◌,
  any, filter, find, update, length, ltb, leb, min, ◌==◌, if◌then◌else◌, string_eq,
}
use minepanel_backend.Text.{trim, slice, starts_with}
use minepanel_backend.Http.{Result, ok, err, too_many_requests}

abbrev pub failure_window_ms : ℕ
failure_window_ms = 15 * 60 * 1000

abbrev pub pair_failure_limit : ℕ
pair_failure_limit = 5

abbrev pub max_pair_entries : ℕ
max_pair_entries = 20000

abbrev pub max_account_entries : ℕ
max_account_entries = 5000

abbrev pub max_progressive_delay_ms : ℕ
max_progressive_delay_ms = 100

pub record FailureEntry : Type 0 where
  pub key : String
  pub failures : ℕ
  pub first_failure_at : ℕ
  pub last_failure_at : ℕ

pub record LoginAttemptContext : Type 0 where
  pub identifier : String
  pub source : String

-- The two maps in insertion order.
pub record Abuse : Type 0 where
  pub pair_failures : List FailureEntry
  pub account_failures : List FailureEntry

abbrev pub has_key : String → FailureEntry → Bool
has_key key e = e.key == key

abbrev pub is_stale : ℕ → FailureEntry → Bool
is_stale now e = leb failure_window_ms (now - e.last_failure_at)

abbrev pub prune_entries : ℕ → List FailureEntry → List FailureEntry
prune_entries now entries = filter (λ e. not (is_stale now e)) entries

abbrev pub prune : ℕ → Abuse → Abuse
prune now s = record {
  pair_failures = prune_entries now s.pair_failures;
  account_failures = prune_entries now s.account_failures;
}

-- the entry after one more failure; an old window starts again
abbrev pub bumped : ℕ → FailureEntry → FailureEntry
bumped now e =
    if ltb (now - e.first_failure_at) failure_window_ms
    then record e { failures = suc e.failures; last_failure_at = now }
    else record e { failures = 1; first_failure_at = now; last_failure_at = now }

-- `entries.set(key, …)`: a key that is there keeps its place
abbrev pub put : String → ℕ → List FailureEntry → List FailureEntry
put key now entries =
    if any (has_key key) entries
    then update (has_key key) (bumped now) entries
    else entries
      ++ record { key = key; failures = 1; first_failure_at = now; last_failure_at = now } ∷ []

-- the loop that deletes the oldest keys
unfoldable pub evict : ℕ → List FailureEntry → List FailureEntry
evict limit [] = []
evict limit (e ∷ entries) =
    let rest = evict limit entries in if ltb limit (length (e ∷ entries)) then rest else e ∷ entries

unfoldable pub bump : String → ℕ → ℕ → List FailureEntry → List FailureEntry
unfolding evict
bump key now limit entries = evict limit (put key now entries)

-- `toLowerCase` and the hexadecimal SHA-256 are parameters
module _ (lower digest : String → String) where
  unfoldable pub normalize : String → String
  normalize value = slice 254 (lower (trim value))

  abbrev pub pair_key : LoginAttemptContext → String
  pair_key context =
      String.◌++◌ (normalize context.identifier)
        (String.◌++◌ "\0" (digest (slice 256 context.source)))

  abbrev pub delay_of : Option FailureEntry → ℕ
  delay_of none = 0
  delay_of (some account) =
      min max_progressive_delay_ms ((account.failures - pair_failure_limit) * 10)

  abbrev pub locked_out : Option FailureEntry → Bool
  locked_out none = false
  locked_out (some pair) = leb pair_failure_limit pair.failures

  -- the exception, or the delay that is slept
  unfoldable pub assert_allowed : LoginAttemptContext → ℕ → Abuse → Result ℕ × Abuse
  assert_allowed context now s =
      let s' = prune now s in
      if locked_out (find (has_key (pair_key context)) s'.pair_failures)
      then (err (too_many_requests "LoginRateLimited"), s')
      else (ok (delay_of (find (has_key (normalize context.identifier)) s'.account_failures)), s')

  unfoldable pub record_failure : LoginAttemptContext → ℕ → Abuse → Abuse
  unfolding bump
  record_failure context now s =
      let s' = prune now s in
      record {
        pair_failures = bump (pair_key context) now max_pair_entries s'.pair_failures;
        account_failures =
            bump (normalize context.identifier) now max_account_entries s'.account_failures;
      }

  unfoldable pub record_success : LoginAttemptContext → Abuse → Abuse
  record_success context s =
      let account_key = normalize context.identifier in
      record {
        pair_failures =
            filter (λ e. not (starts_with (String.◌++◌ account_key "\0") e.key)) s.pair_failures;
        account_failures = filter (λ e. not (has_key account_key e)) s.account_failures;
      }
