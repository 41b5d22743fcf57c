-- ===== src/Auth/Login/SecondFactor.antt =====
-- src/auth/auth.service.ts: the second factor, its codes and its set-up.
use minepanel_backend.Common.{
  ℕ, String, Bool, true, false, not, ◌&&◌, Option, none, some, is_some, nat_eq, List, [], ◌∷◌,
  filter, ◌==◌, if◌then◌else◌, string_eq, option_eq, bool_eq,
}
use minepanel_backend.Http.{unauthorized, error_thrown}
use minepanel_backend.Schema.{User}
use minepanel_backend.Text.{all_chars, count_chars, is_digit}
use minepanel_backend.Effects.{
  Env, M, pure, throw, lift, or_throw, throw_if, clock, call, statement, remember, ◌>>=◌, ◌>>◌,
}
use minepanel_backend.Admin.Statements.{is_user}
use minepanel_backend.Users.Statements.{update_matching, filled}
use minepanel_backend.Users.Service.{find_by_id}
use minepanel_backend.Auth.AccessToken.{ClaimValue, text}
use minepanel_backend.Auth.Libraries.{Libraries, Json, json_array, json_other}
use minepanel_backend.Auth.RefreshTokenTtl.{RefreshTokenTtl}
use minepanel_backend.Auth.Sessions.{AuthTokens, assert_login_allowed, issue_session}
use minepanel_backend.Auth.TwoFactor.{
  assert_two_factor_not_locked, record_two_factor_failure, clear,
}
use minepanel_backend.Auth.Login.{is_later, consume_temp_password}

abbrev pub cons_text : String → Option (List String) → Option (List String)
cons_text s none = none
cons_text s (some ss) = some (s ∷ ss)

-- `isStringArray`, with the texts
abbrev pub strings_of : List ClaimValue → Option (List String)
strings_of [] = some []
strings_of (text s ∷ vs) = cons_text s (strings_of vs)
strings_of (_ ∷ vs) = none

abbrev pub codes_of : Option Json → Option (List String)
codes_of none = none
codes_of (some json_other) = none
codes_of (some (json_array vs)) = strings_of vs

-- `/^\d{6}$/u`
unfoldable pub is_six_digits : String → Bool
is_six_digits token = count_chars token == 6 && all_chars is_digit token

abbrev pub with_secret : User → Option String → Option (User × String)
with_secret u none = none
with_secret u (some secret) = some (u, secret)

-- the account that has a second factor, and its stored secret
abbrev pub with_second_factor : Option User → Option (User × String)
with_second_factor none = none
with_second_factor (some u) = if u.totp_enabled then with_secret u (filled u.totp_secret) else none

module _ (env : Env) (lib : Libraries) (ttl : RefreshTokenTtl) where
  unfoldable pub check_time_code : String → String → M Bool
  check_time_code stored_secret token = do
    secret ←
        or_throw (lib.decrypt stored_secret)
          (error_thrown "Unsupported state or unable to authenticate data")
    now ← clock env
    pure (lib.verify_totp now secret token)

  unfoldable pub is_valid_totp : String → String → M Bool
  is_valid_totp stored_secret token =
      if is_six_digits token then check_time_code stored_secret token else pure false

  -- the first code that matches is taken off the list, if the list is still the one that was read
  unfoldable pub consume_backup_code : User → String → List String → String → M Bool
  consume_backup_code u stored codes hashed_code = do
    now ← clock env
    consumed ← statement env (
        update_matching (λ r. is_user u.id r && r.totp_backup_codes == some stored)
          (λ r. record r {
            totp_backup_codes = some (lib.stringify (filter (λ c. not (c == hashed_code)) codes));
            updated_at = now;
          }))
    pure (is_some consumed)

  unfoldable pub try_backup_codes : User → String → String → List String → List String → M Bool
  try_backup_codes u token stored codes [] = pure false
  try_backup_codes u token stored codes (hashed_code ∷ left) =
      let rest = try_backup_codes u token stored codes left in
      do
        matches ← call env (λ n. lib.compare_password token hashed_code)
        if matches then consume_backup_code u stored codes hashed_code else rest

  abbrev pub try_stored_codes : User → String → String → Option (List String) → M Bool
  try_stored_codes u token stored none = pure false
  try_stored_codes u token stored (some codes) = try_backup_codes u token stored codes codes

  abbrev pub try_stored : User → String → Option String → M Bool
  try_stored u token none = pure false
  try_stored u token (some stored) =
      try_stored_codes u token stored (codes_of (lib.parse_json stored))

  unfoldable pub verify_and_consume_backup_code : User → String → M Bool
  verify_and_consume_backup_code u token = try_stored u token (filled u.totp_backup_codes)

  -- a time code, or else a backup code
  unfoldable pub verify_second_factor : User → String → String → M Bool
  verify_second_factor u stored_secret token = do
    valid ← is_valid_totp stored_secret token
    if valid then pure true else verify_and_consume_backup_code u token

  abbrev pub has_fingerprint : Option String → Option String → Bool
  has_fingerprint (some fingerprint) (some hash) = lib.sha256 hash == fingerprint
  has_fingerprint _ _ = false

  -- the temporary credential is still the one that was matched at sign-in
  abbrev pub is_bound : ℕ → User → Option String → Bool
  is_bound now u fingerprint =
      is_later now u.temp_password_expires_at
      && has_fingerprint (filled fingerprint) (filled u.temp_password_hash)

  unfoldable pub assert_not_locked : String → M (Unit {0})
  assert_not_locked user_id = do
    now ← clock env
    checked ← remember (λ memory.
        let (result, failures) =
          assert_two_factor_not_locked user_id now memory.two_factor_failures in
        (result, record memory { two_factor_failures = failures }))
    lift checked

  unfoldable pub refuse_code : {A : Type 0} → String → M A
  refuse_code user_id = do
    now ← clock env
    remember (λ memory. (
      tt,
      record memory {
        two_factor_failures = record_two_factor_failure user_id now memory.two_factor_failures;
      },
    ))
    throw (unauthorized "Invalid two-factor code")

  unfoldable pub accept_code : User → Bool → M AuthTokens
  accept_code u temporary_auth = do
    remember (λ memory.
        (tt, record memory { two_factor_failures = clear u.id memory.two_factor_failures }))
    if temporary_auth then consume_temp_password env lib ttl u else pure tt
    issue_session env lib ttl u temporary_auth

  -- the checks and the code, once the account is found and not locked
  unfoldable pub attempt_second_factor :
      User → String → String → Bool → Option String → M AuthTokens
  attempt_second_factor u stored_secret token temporary_auth fingerprint = do
    throw_if (not (u.must_change_password == temporary_auth)) (unauthorized "Unauthorized")
    now ← clock env
    throw_if (temporary_auth && not (is_bound now u fingerprint)) (unauthorized "Unauthorized")
    valid ← verify_second_factor u stored_secret token
    if valid then accept_code u temporary_auth else refuse_code u.id

  unfoldable pub complete_two_factor_login : String → String → Bool → Option String → M AuthTokens
  complete_two_factor_login user_id token temporary_auth fingerprint = do
    found ← find_by_id env lib user_id
    (u, stored_secret) ← or_throw (with_second_factor found) (unauthorized "Unauthorized")
    lift (assert_login_allowed u.status)
    assert_not_locked u.id
    attempt_second_factor u stored_secret token temporary_auth fingerprint
