-- ===== src/Auth/Login.antt =====
-- src/auth/auth.service.ts: registration and sign-in, with a second factor and temporary passwords.
pub mod SecondFactor
pub mod Grants
pub mod SingleUse
pub mod BackupCodes
pub mod SecondCodes
pub mod SecondGrants
mod Tests
mod CodeTests
mod SecondTests
use minepanel_backend.Common.{
  ℕ, String, Bool, true, false, not, ◌&&◌, ◌||◌, Option, none, some, is_some, nat_eq, ltb, leb,
  ◌==◌, if◌then◌else◌, string_eq, option_eq,
}
use minepanel_backend.Http.{
  Exception, Result, ok, err, unauthorized, conflict, forbidden, error_thrown,
}
use minepanel_backend.Memory.{Memory}
use minepanel_backend.Schema.{User, active, pending}
use minepanel_backend.Effects.{
  Env, M, pure, throw, lift, or_throw, throw_if, clock, call, query, statement, remember, ◌>>=◌,
  ◌>>◌,
}
use minepanel_backend.Admin.Statements.{is_user}
use minepanel_backend.Users.Statements.{update_matching, filled}
use minepanel_backend.Users.Service.{find_by_identifier, create_user}
use minepanel_backend.Auth.Dto.{CreateUserDto, LoginUserDto}
use minepanel_backend.Auth.Libraries.{Libraries, pre_auth_claims}
use minepanel_backend.Auth.LoginAbuse.{
  LoginAttemptContext, assert_allowed, record_failure, record_success,
}
use minepanel_backend.Auth.Password.{
  byte_length, max_password_bytes, assert_password_within_byte_limit,
}
use minepanel_backend.Auth.RefreshTokenTtl.{RefreshTokenTtl}
use minepanel_backend.Auth.Sessions.{AuthTokens, assert_login_allowed, issue_session}

-- `LoginResponse`
pub data LoginResponse : Type 0 where
  signed_in : AuthTokens → LoginResponse
  two_factor_challenge : (pre_auth_token : String) → LoginResponse

abbrev pub dummy_password_hash : String
dummy_password_hash = "$2b$10$ImDussfxY6I73mT10z0lU.DyrhBuXdRh7CBiLNf0nJM3yNj1asche"

abbrev pub wrong_login : Exception
wrong_login = unauthorized "Wrong credentials"

abbrev pub register_identifier : CreateUserDto → String
register_identifier dto = if dto.username == "" then dto.email else dto.username

-- the hash that the password is compared with
abbrev pub hash_or_dummy : Option String → String
hash_or_dummy none = dummy_password_hash
hash_or_dummy (some hash) = hash

abbrev pub primary_hash : Option User → String
primary_hash none = dummy_password_hash
primary_hash (some u) = hash_or_dummy u.password_hash

abbrev pub is_later : ℕ → Option ℕ → Bool
is_later now none = false
is_later now (some t) = ltb now t

-- the temporary hash, while it has not expired
abbrev pub live_temp_hash : ℕ → User → Option String
live_temp_hash now u =
    if is_later now u.temp_password_expires_at then filled u.temp_password_hash else none

abbrev pub temp_hash : ℕ → Option User → String
temp_hash now none = dummy_password_hash
temp_hash now (some u) = hash_or_dummy (live_temp_hash now u)

-- the account, unless the password is too long
abbrev pub known_account : String → Option User → Option User
known_account password found = if leb (byte_length password) max_password_bytes then found else none

abbrev pub is_consumable : String → String → ℕ → User → Bool
is_consumable user_id hash now u =
    is_user user_id u
    && u.must_change_password
    && u.temp_password_hash == some hash
    && is_later now u.temp_password_expires_at

module _ (env : Env) (lib : Libraries) (ttl : RefreshTokenTtl) where
  unfoldable pub register_user : CreateUserDto → M Bool
  register_user dto = do
    existing ← find_by_identifier env lib (register_identifier dto)
    throw_if (is_some existing) (conflict "User already exists")
    lift (assert_password_within_byte_limit dto.password)
    hash ← call env (λ n. env.hash_password n dto.password)
    create_user env lib dto.email dto.username (some hash)
        (if env.config "REQUIRE_ADMIN_APPROVAL" == some "true" then pending else active) none
    pure true

  -- the limit on failed sign-ins, with the delay that it asks for
  unfoldable pub check_login_abuse : Option LoginAttemptContext → M (Unit {0})
  check_login_abuse none = pure tt
  check_login_abuse (some context) = do
    now ← clock env
    checked ← remember (λ memory.
        let (result, abuse) =
          assert_allowed lib.to_lower_case lib.sha256 context now memory.abuse in
        (result, record memory { abuse = abuse }))
    delay ← lift checked
    if delay == 0 then pure tt else call env (λ n. tt)

  unfoldable pub record_login_failure : Option LoginAttemptContext → M (Unit {0})
  record_login_failure none = pure tt
  record_login_failure (some context) = do
    now ← clock env
    remember (λ memory. (
      tt,
      record memory {
        abuse = record_failure lib.to_lower_case lib.sha256 context now memory.abuse;
      },
    ))

  unfoldable pub record_login_success : Option LoginAttemptContext → M (Unit {0})
  record_login_success none = pure tt
  record_login_success (some context) = remember (λ memory. (
    tt,
    record memory { abuse = record_success lib.to_lower_case lib.sha256 context memory.abuse },
  ))

  unfoldable pub refuse_login : {A : Type 0} → Option LoginAttemptContext → M A
  refuse_login context = do record_login_failure context; throw wrong_login

  -- `consumeTempPassword`
  unfoldable pub consume_temp_password : User → M (Unit {0})
  consume_temp_password u = do
    hash ← or_throw (filled u.temp_password_hash) wrong_login
    or_throw u.temp_password_expires_at wrong_login
    now ← clock env
    consumed ← statement env (
        update_matching (is_consumable u.id hash now)
          (λ r. record r { temp_password_expires_at = none; updated_at = now }))
    or_throw consumed wrong_login
    pure tt

  unfoldable pub challenge : Option LoginAttemptContext → String → Option String → M LoginResponse
  challenge context user_id fingerprint = do
    token ← call env (λ n. lib.sign n (pre_auth_claims user_id fingerprint) (some "5m"))
    record_login_success context
    pure (two_factor_challenge token)

  unfoldable pub start_session : Option LoginAttemptContext → User → Bool → M LoginResponse
  start_session context u temporary_auth = do
    session ← issue_session env lib ttl u temporary_auth
    record_login_success context
    pure (signed_in session)

  unfoldable pub challenge_forced : Option LoginAttemptContext → User → M LoginResponse
  challenge_forced context u = do
    hash ← or_throw u.temp_password_hash (error_thrown "TypeError")
    challenge context u.id (some (lib.sha256 hash))

  unfoldable pub start_forced : Option LoginAttemptContext → User → M LoginResponse
  start_forced context u = do consume_temp_password u; start_session context u true

  -- while the account has to change its password, only the temporary one counts
  unfoldable pub login_forced : Option LoginAttemptContext → User → M LoginResponse
  login_forced context u =
      if u.totp_enabled then challenge_forced context u else start_forced context u

  unfoldable pub login_ordinary : Option LoginAttemptContext → User → M LoginResponse
  login_ordinary context u =
      if u.totp_enabled then challenge context u.id none else start_session context u false

  unfoldable pub login_matched : Option LoginAttemptContext → User → Bool → Bool → M LoginResponse
  login_matched context u primary_matches temp_matches =
      if u.must_change_password
      then if temp_matches then login_forced context u else refuse_login context
      else if primary_matches
      then login_ordinary context u
      else refuse_login context

  abbrev pub login_found : Option LoginAttemptContext → Bool → Bool → Option User → M LoginResponse
  login_found context primary_matches temp_matches none = refuse_login context
  login_found context primary_matches temp_matches (some u) = do
    lift (assert_login_allowed u.status)
    login_matched context u primary_matches temp_matches

  unfoldable pub login_user : LoginUserDto → Option LoginAttemptContext → M LoginResponse
  login_user dto context = do
    check_login_abuse context
    found ← find_by_identifier env lib dto.identifier
    primary_matches ← call env (λ n. lib.compare_password dto.password (primary_hash found))
    now ← clock env
    temp_matches ← call env (λ n. lib.compare_password dto.password (temp_hash now found))
    login_found context primary_matches temp_matches (known_account dto.password found)

  unfoldable pub issue_provider_session : User → M AuthTokens
  issue_provider_session u = do
    lift (assert_login_allowed u.status)
    throw_if u.must_change_password (forbidden "PasswordRecoveryRequired")
    throw_if u.totp_enabled (forbidden "TwoFactorAuthenticationRequired")
    issue_session env lib ttl u false
