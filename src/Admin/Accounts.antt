-- ===== src/Admin/Accounts.antt =====
-- src/admin/admin.service.ts: status, role, temporary password and second factor of an account.
use minepanel_backend.Common.{
  ℕ, ◌+◌, ◌*◌, String, Bool, true, false, not, ◌&&◌, none, some, ◌==◌, leb, if◌then◌else◌,
}
use minepanel_backend.Http.{Exception, bad_request, conflict, not_found, error_thrown}
use minepanel_backend.Schema.{Role, UserStatus, admin, active, banned, role_eq, user_status_eq}
use minepanel_backend.Effects.{
  Env, M, pure, or_throw, throw_if, clock, query, statement, locked_query, locked_statement, ◌>>=◌,
  ◌>>◌,
}
use minepanel_backend.Users.Public.{PublicUser, to_public_user}
use minepanel_backend.Admin.Statements.{
  take_admin_lock, find_user, active_admins, update_users, delete_sessions, delete_permissions,
}

abbrev pub user_missing : Exception
user_missing = not_found "User not found"

-- `toPublicUser(undefined)`
abbrev row_missing : Exception
row_missing = error_thrown "TypeError"

abbrev pub deactivates : Role → UserStatus → UserStatus → Bool
deactivates role status next = role == admin && status == active && not (next == active)

abbrev pub demotes : Role → UserStatus → Role → Bool
demotes role status next = role == admin && status == active && not (next == admin)

abbrev pub temp_password_ttl_ms : ℕ
temp_password_ttl_ms = 24 * 60 * 60 * 1000

module _ (env : Env) where
  unfoldable pub assert_active_admins_remain : M (Unit {0})
  assert_active_admins_remain = do
    remaining ← locked_query env active_admins
    throw_if (leb remaining 1) (conflict "Cannot deactivate the last active admin")

  unfoldable pub update_status : String → UserStatus → M PublicUser
  update_status user_id status = do
    take_admin_lock env
    found ← locked_query env (find_user user_id)
    target ← or_throw found user_missing
    throw_if (target.status == status) (bad_request "No changes")
    if deactivates target.role target.status status then assert_active_admins_remain else pure tt
    now ← clock env
    updated ←
        locked_statement env
          (update_users user_id (λ u. record u { status = status; updated_at = now }))
    if status == banned then locked_statement env (delete_sessions user_id) else pure tt
    row ← or_throw updated row_missing
    pure (to_public_user row)

  unfoldable pub update_role : String → Role → M PublicUser
  update_role user_id role = do
    take_admin_lock env
    found ← locked_query env (find_user user_id)
    target ← or_throw found user_missing
    throw_if (target.role == role) (bad_request "No changes")
    if demotes target.role target.status role then assert_active_admins_remain else pure tt
    now ← clock env
    updated ←
        locked_statement env
          (update_users user_id (λ u. record u { role = role; updated_at = now }))
    locked_statement env (delete_permissions user_id)
    row ← or_throw updated row_missing
    pure (to_public_user row)

  -- bcrypt and the random generator are the environment's
  unfoldable pub reset_password : String → M String
  reset_password user_id = do
    found ← query env (find_user user_id)
    or_throw found user_missing
    now ← clock env
    let password = env.random_text now 12
    updated_at ← clock env
    statement env (
        update_users user_id (λ u. record u {
          temp_password_hash = some (env.hash_password now password);
          temp_password_expires_at = some (now + temp_password_ttl_ms);
          must_change_password = true;
          updated_at = updated_at;
        }))
    statement env (delete_sessions user_id)
    pure password

  unfoldable pub remove_two_factor : String → M PublicUser
  remove_two_factor user_id = do
    found ← query env (find_user user_id)
    target ← or_throw found user_missing
    throw_if (not target.totp_enabled) (bad_request "Two-factor authentication is not enabled")
    now ← clock env
    updated ← statement env (
        update_users user_id (λ u. record u {
          totp_enabled = false;
          totp_secret = none;
          totp_backup_codes = none;
          updated_at = now;
        }))
    row ← or_throw updated row_missing
    pure (to_public_user row)
