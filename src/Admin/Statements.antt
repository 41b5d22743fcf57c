-- ===== src/Admin/Statements.antt =====
-- src/admin/admin.service.ts: its SQL statements.
use mathlib.Core.Option
use minepanel_backend.Common.{
  ℕ, String, Bool, true, not, ◌&&◌, ◌||◌, Option, none, some, [], ◌∷◌, ◌++◌, length, filter, find,
  update, any, ◌==◌, if◌then◌else◌, string_eq, option_eq,
}
use minepanel_backend.Http.{Result, ok, err, database_error}
use minepanel_backend.Schema.{
  Db, User, ModPermissionRow, admin, active, role_eq, user_status_eq, mod_permission_eq,
}
use minepanel_backend.Effects.{Env, M, query}

abbrev pub is_user : String → User → Bool
is_user user_id u = u.id == user_id

abbrev pub find_user : String → Db → Option User
find_user user_id db = find (is_user user_id) db.users

abbrev pub is_active_admin : User → Bool
is_active_admin u = u.role == admin && u.status == active

-- SELECT count(*) … WHERE role = 'ADMIN' AND status = 'ACTIVE'
abbrev pub active_admins : Db → ℕ
active_admins db = length (filter is_active_admin db.users)

-- UPDATE users SET … WHERE id = … RETURNING
abbrev pub update_users : String → (User → User) → Db → Option User × Db
update_users user_id f db = (
  Option.map f (find (is_user user_id) db.users),
  record db { users = update (is_user user_id) f db.users },
)

-- DELETE FROM refresh_tokens WHERE user_id = …
abbrev pub delete_sessions : String → Db → Unit {0} × Db
delete_sessions user_id db =
    (tt, record db { refresh_tokens = filter (λ t. not (t.user_id == user_id)) db.refresh_tokens })

-- DELETE FROM mod_permissions WHERE user_id = …
abbrev pub delete_permissions : String → Db → Unit {0} × Db
delete_permissions user_id db = (
  tt,
  record db { mod_permissions = filter (λ m. not (m.user_id == user_id)) db.mod_permissions },
)

abbrev pub server_exists : String → Db → Bool
server_exists server_id db = any (λ r. r.id == server_id) db.servers

-- the same grant: user, permission and scope, where no scope equals no scope
abbrev pub is_grant : ModPermissionRow → ModPermissionRow → Bool
is_grant a b = b.user_id == a.user_id && b.permission == a.permission && b.server_id == a.server_id

abbrev scope_exists : Option String → Db → Bool
scope_exists none db = true
scope_exists (some server_id) db = server_exists server_id db

-- INSERT … ON CONFLICT DO NOTHING RETURNING
abbrev pub insert_permission : ModPermissionRow → Db → Result (Option ModPermissionRow) × Db
insert_permission row db =
    if any (λ m. is_grant row m || m.id == row.id) db.mod_permissions
    then (ok none, db)
    else if any (is_user row.user_id) db.users && scope_exists row.server_id db
    then (ok (some row), record db { mod_permissions = db.mod_permissions ++ row ∷ [] })
    else (err (database_error "23503"), db)

abbrev is_permission_of : String → String → ModPermissionRow → Bool
is_permission_of user_id permission_id m = m.id == permission_id && m.user_id == user_id

-- DELETE … WHERE id AND user_id RETURNING: whether there was a row
abbrev pub delete_permission : String → String → Db → Bool × Db
delete_permission user_id permission_id db = (
  any (is_permission_of user_id permission_id) db.mod_permissions,
  record db {
    mod_permissions =
        filter (λ m. not (is_permission_of user_id permission_id m)) db.mod_permissions;
  },
)

-- `SELECT pg_advisory_xact_lock(LAST_ADMIN_LOCK_KEY)`: others run until the lock is taken
unfoldable pub take_admin_lock : Env → M (Unit {0})
take_admin_lock env = query env (λ db. tt)
