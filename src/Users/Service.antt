-- ===== src/Users/Service.antt =====
-- src/users/users.service.ts: accounts, their names and passwords.
use minepanel_backend.Common.{
  ℕ, String, Bool, true, false, not, ◌&&◌, Option, none, some, ◌==◌, if◌then◌else◌, string_eq,
  option_eq, nat_eq,
}
use minepanel_backend.Http.{Exception, bad_request, error_thrown}
use minepanel_backend.Schema.{User, Role, UserStatus, RefreshToken}
use minepanel_backend.Effects.{
  Env, M, pure, throw, lift, or_throw, throw_if, clock, fresh_id, call, query, statement, ◌>>=◌,
  ◌>>◌,
}
use minepanel_backend.Admin.Statements.{is_user, find_user}
use minepanel_backend.Users.Public.{PublicUser, to_public_user}
use minepanel_backend.Users.Statements.{
  insert_user, update_matching, update_username, delete_tokens, find_identified, filled,
}
use minepanel_backend.Auth.Dto.{UpdatePasswordDto, EditUserDto}
use minepanel_backend.Auth.Libraries.{Libraries}
use minepanel_backend.Auth.Password.{assert_password_within_byte_limit}

abbrev pub wrong_credentials : Exception
wrong_credentials = bad_request "Wrong credentials"

abbrev row_missing : Exception
row_missing = error_thrown "TypeError"

abbrev role_or_default : Option Role → Role
role_or_default none = Role.user
role_or_default (some role) = role

abbrev pub new_user : String → String → Option String → UserStatus → Option Role → String → ℕ → User
new_user email username password_hash status role id now = record {
  id = id;
  email = email;
  username = username;
  password_hash = password_hash;
  google_id = none;
  github_id = none;
  role = role_or_default role;
  status = status;
  totp_secret = none;
  totp_enabled = false;
  totp_backup_codes = none;
  temp_password_hash = none;
  temp_password_expires_at = none;
  must_change_password = false;
  minecraft_uuid = none;
  minecraft_name = none;
  minecraft_verified = false;
  created_at = now;
  updated_at = now;
}

-- the hash that a forced change compares with: the temporary credential was used
abbrev pub retained_hash : User → Option String
retained_hash u =
    if u.must_change_password && u.temp_password_expires_at == none
    then filled u.temp_password_hash
    else none

-- the row is still the one whose hash was compared
abbrev pub is_forced : String → String → User → Bool
is_forced user_id temp_hash u =
    is_user user_id u
    && u.must_change_password
    && u.temp_password_expires_at == none
    && u.temp_password_hash == some temp_hash

abbrev pub force_changed : String → ℕ → User → User
force_changed new_hash now u = record u {
  password_hash = some new_hash;
  temp_password_hash = none;
  temp_password_expires_at = none;
  must_change_password = false;
  updated_at = now;
}

-- the sessions that a change of password ends: all but that of the token
abbrev pub is_other_session : (String → String) → String → Option String → RefreshToken → Bool
is_other_session sha256 user_id none t = t.user_id == user_id
is_other_session sha256 user_id (some token_id) t =
    t.user_id == user_id && not (t.token_id_hash == sha256 token_id)

module _ (env : Env) (lib : Libraries) where
  unfoldable pub create_user : String → String → Option String → UserStatus → Option Role → M Bool
  create_user email username password_hash status role = do
    id ← fresh_id env
    now ← clock env
    inserted ←
        statement env (insert_user (new_user email username password_hash status role id now))
    lift inserted
    pure true

  unfoldable pub find_by_id : String → M (Option User)
  find_by_id id = query env (find_user id)

  unfoldable pub find_by_identifier : String → M (Option User)
  find_by_identifier identifier = query env (find_identified identifier)

  abbrev pub rename : String → Option String → User → M PublicUser
  rename user_id none u = throw (bad_request "No changes")
  rename user_id (some username) u =
      if username == u.username then throw (bad_request "No changes") else do
        now ← clock env
        changed ← statement env (
            update_username user_id username
              (λ r. record r { username = username; updated_at = now }))
        row ← lift changed
        updated ← or_throw row row_missing
        pure (to_public_user updated)

  unfoldable pub update_profile : String → EditUserDto → M PublicUser
  update_profile user_id dto = do
    found ← find_by_id user_id
    u ← or_throw found (error_thrown "")
    rename user_id dto.username u

  -- the session that used the temporary password sets a new one
  unfoldable pub change_forced : String → UpdatePasswordDto → User → M PublicUser
  change_forced user_id dto u = do
    temp_hash ← or_throw (retained_hash u) wrong_credentials
    matches ← call env (λ n. lib.compare_password dto.old_password temp_hash)
    throw_if (not matches) wrong_credentials
    new_hash ← call env (λ n. env.hash_password n dto.new_password)
    now ← clock env
    updated ←
        statement env (update_matching (is_forced user_id temp_hash) (force_changed new_hash now))
    row ← or_throw updated wrong_credentials
    statement env (delete_tokens (λ t. t.user_id == user_id))
    pure (to_public_user row)

  unfoldable pub change_ordinary : String → UpdatePasswordDto → Option String → User → M PublicUser
  change_ordinary user_id dto refresh_token_id u = do
    throw_if u.must_change_password wrong_credentials
    password_hash ← or_throw (filled u.password_hash) wrong_credentials
    matches ← call env (λ n. lib.compare_password dto.old_password password_hash)
    throw_if (not matches) wrong_credentials
    new_hash ← call env (λ n. env.hash_password n dto.new_password)
    now ← clock env
    updated ← statement env (
        update_matching (is_user user_id)
          (λ r. record r { password_hash = some new_hash; updated_at = now }))
    row ← or_throw updated row_missing
    statement env (delete_tokens (is_other_session lib.sha256 user_id (filled refresh_token_id)))
    pure (to_public_user row)

  unfoldable pub update_password : String → UpdatePasswordDto → Option String → Bool → M PublicUser
  update_password user_id dto refresh_token_id temporary_auth = do
    lift (assert_password_within_byte_limit dto.old_password)
    lift (assert_password_within_byte_limit dto.new_password)
    found ← find_by_id user_id
    u ← or_throw found (error_thrown "")
    if temporary_auth
        then change_forced user_id dto u
        else change_ordinary user_id dto refresh_token_id u
