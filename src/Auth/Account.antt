-- ===== src/Auth/Account.antt =====
-- src/auth/auth.service.ts: the account's own settings, its password and its second factor.
use minepanel_backend.Common.{
  ℕ, zero, suc, ◌+◌, String, Bool, true, false, not, Option, none, some, List, [], ◌∷◌,
  if◌then◌else◌,
}
use minepanel_backend.Http.{Exception, unauthorized, bad_request}
use minepanel_backend.Text.{concat}
use minepanel_backend.Effects.{
  Env, M, pure, lift, or_throw, throw_if, clock, call, statement, ◌>>=◌, ◌>>◌,
}
use minepanel_backend.Admin.Statements.{update_users}
use minepanel_backend.Users.Public.{PublicUser}
use minepanel_backend.Users.Statements.{filled}
use minepanel_backend.Users.Service.{find_by_id, update_profile, update_password}
use minepanel_backend.Auth.Dto.{UpdatePasswordDto, EditUserDto}
use minepanel_backend.Auth.Libraries.{Libraries}
use minepanel_backend.Auth.RefreshToken.{read_refresh_token_id}
use minepanel_backend.Auth.RefreshTokenTtl.{RefreshTokenTtl}
use minepanel_backend.Auth.Sessions.{AuthTokens, issue_session}
use minepanel_backend.Auth.Login.SecondFactor.{
  with_second_factor, is_valid_totp, verify_second_factor,
}

pub record PasswordUpdateResult : Type 0 where
  pub user : PublicUser
  pub session : Option AuthTokens

pub record TwoFactorSetup : Type 0 where
  pub secret : String
  pub uri : String

abbrev bare_bad_request : Exception
bare_bad_request = bad_request "Bad Request"

abbrev bare_unauthorized : Exception
bare_unauthorized = unauthorized "Unauthorized"

abbrev already_enabled : Exception
already_enabled = bad_request "Two-factor authentication is already enabled"

module _ (env : Env) (lib : Libraries) (ttl : RefreshTokenTtl) where
  unfoldable pub edit_user_profile : String → EditUserDto → M PublicUser
  edit_user_profile user_id dto = update_profile env lib user_id dto

  -- after a forced change the old session is gone, and an ordinary one starts
  unfoldable pub restart_session : String → M PasswordUpdateResult
  restart_session user_id = do
    found ← find_by_id env lib user_id
    updated ← or_throw found bare_unauthorized
    session ← issue_session env lib ttl updated false
    pure (record { user = session.user; session = some session })

  unfoldable pub update_user_password :
      String → UpdatePasswordDto → String → Bool → M PasswordUpdateResult
  update_user_password user_id dto refresh_token temporary_auth = do
    token_id ← lift (read_refresh_token_id lib refresh_token)
    changed ←
        update_password env lib user_id dto (if temporary_auth then none else some token_id)
          temporary_auth
    if temporary_auth
        then restart_session user_id
        else pure (record { user = changed; session = none })

  unfoldable pub setup_2fa : String → M TwoFactorSetup
  setup_2fa user_id = do
    found ← find_by_id env lib user_id
    u ← or_throw found bare_unauthorized
    throw_if u.totp_enabled already_enabled
    now ← clock env
    let secret = lib.generate_secret now
    statement env (
        update_users user_id
          (λ r. record r { totp_secret = some (lib.encrypt now secret); updated_at = now }))
    pure (record { secret = secret; uri = lib.generate_uri u.email secret })

  -- eight codes, each of two random texts
  abbrev pub backup_codes : ℕ → ℕ → List String
  backup_codes zero seed = []
  backup_codes (suc left) seed =
      concat (env.random_text seed 4 ∷ "-" ∷ env.random_text (seed + 1) 4 ∷ [])
      ∷ backup_codes left (seed + 2)

  unfoldable pub hash_codes : List String → M (List String)
  hash_codes [] = pure []
  hash_codes (code ∷ codes) = do
    hash ← call env (λ n. env.hash_password n code)
    rest ← hash_codes codes
    pure (hash ∷ rest)

  unfoldable pub confirm_2fa : String → String → M (List String)
  confirm_2fa user_id token = do
    found ← find_by_id env lib user_id
    u ← or_throw found bare_unauthorized
    throw_if u.totp_enabled already_enabled
    stored_secret ← or_throw (filled u.totp_secret) bare_bad_request
    valid ← is_valid_totp env lib ttl stored_secret token
    throw_if (not valid) bare_bad_request
    seed ← clock env
    let codes = backup_codes 8 seed
    hashed ← hash_codes codes
    now ← clock env
    statement env (
        update_users user_id (λ r. record r {
          totp_backup_codes = some (lib.stringify hashed);
          totp_enabled = true;
          updated_at = now;
        }))
    pure codes

  unfoldable pub disable_2fa : String → String → M Bool
  disable_2fa user_id token = do
    found ← find_by_id env lib user_id
    (u, stored_secret) ← or_throw (with_second_factor found) bare_bad_request
    valid ← verify_second_factor env lib ttl u stored_secret token
    throw_if (not valid) bare_bad_request
    now ← clock env
    statement env (
        update_users user_id (λ r. record r {
          totp_enabled = false;
          totp_secret = none;
          totp_backup_codes = none;
          updated_at = now;
        }))
    pure true
