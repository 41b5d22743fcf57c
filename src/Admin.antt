-- ===== src/Admin.antt =====
-- src/admin/admin.service.ts: accounts, roles and the permissions of moderators.
pub mod Statements
pub mod Accounts
pub mod Counts
pub mod LastAdmin
mod Tests
use mathlib.Core.Option
use minepanel_backend.Common.{
  ℕ, String, Bool, true, false, not, ◌&&◌, Option, none, some, find, ◌==◌, string_eq, option_eq,
}
use minepanel_backend.Text.{trim}
use minepanel_backend.Http.{bad_request, conflict, not_found}
use minepanel_backend.Schema.{
  ModPermission, ModPermissionRow, moderator, role_eq, mod_permission_eq,
}
use minepanel_backend.Effects.{
  Env, M, pure, throw, lift, or_throw, throw_if, clock, fresh_id, query, statement, locked_query,
  locked_statement, ◌>>=◌, ◌>>◌,
}
use Statements.{
  take_admin_lock, find_user, server_exists, is_grant, insert_permission, delete_permission,
}
use Accounts.{user_missing}

pub record GrantModPermissionDto : Type 0 where
  pub permission : ModPermission
  pub server_id : Option String

abbrev is_blank : Option String → Bool
is_blank none = false
is_blank (some text) = trim text == ""

abbrev pub new_grant : String → String → ModPermission → Option String → ℕ → ModPermissionRow
new_grant id user_id permission server_id now = record {
  id = id;
  user_id = user_id;
  permission = permission;
  server_id = server_id;
  created_at = now;
}

module _ (env : Env) where
  -- a scope names a server
  unfoldable pub check_scope : Option String → M (Unit {0})
  check_scope none = pure tt
  check_scope (some server_id) = do
    found ← locked_query env (server_exists server_id)
    throw_if (not found) (not_found "Server not found")

  abbrev granted : Option ModPermissionRow → M ModPermissionRow → M ModPermissionRow
  granted (some row) rest = pure row
  granted none rest = rest

  unfoldable pub grant_mod_permission : String → GrantModPermissionDto → M ModPermissionRow
  grant_mod_permission user_id dto = do
    take_admin_lock env
    found ← locked_query env (find_user user_id)
    target ← or_throw found user_missing
    throw_if (not (target.role == moderator)) (bad_request "User is not a MOD")
    throw_if (is_blank dto.server_id) (bad_request "serverId must not be blank")
    let scope = Option.map trim dto.server_id
    check_scope scope
    id ← fresh_id env
    now ← clock env
    let row = new_grant id user_id dto.permission scope now
    inserted ← locked_statement env (insert_permission row)
    settled ← lift inserted
    granted settled do
      locked_query env (λ db. find (is_grant row) db.mod_permissions)
      throw (conflict "Permission grant already exists")

  unfoldable pub revoke_mod_permission : String → String → M (Unit {0})
  revoke_mod_permission user_id permission_id = do
    found ← query env (find_user user_id)
    or_throw found user_missing
    deleted ← statement env (delete_permission user_id permission_id)
    throw_if (not deleted) (not_found "Permission grant not found")
