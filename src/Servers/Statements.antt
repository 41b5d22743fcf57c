-- ===== src/Servers/Statements.antt =====
-- src/servers/servers.service.ts: the SQL statements of the lifecycle and the visibility predicate.
use mathlib.Core.Option
use minepanel_backend.Common.{
  ℕ, String, Bool, false, not, ◌&&◌, ◌||◌, Option, none, some, List, [], ◌∷◌, ◌++◌, any, find,
  filter, update, ◌==◌, if◌then◌else◌, nat_eq, string_eq, option_eq,
}
use minepanel_backend.Effects.{Env, M, clock, statement, locked_statement, query, ◌>>=◌}
use minepanel_backend.Http.{Result, ok, err, database_error}
use minepanel_backend.Schema.{
  Db, Server, ServerStatus, ServerAccess, ModPermissionRow, Role, admin, open_access, approved,
  creating, role_eq, server_status_eq, access_type_eq, access_status_eq,
}

pub record ServerPrincipal : Type 0 where
  pub id : String
  pub role : Role

-- `value ? … : …` at a nullable text
abbrev pub nonempty : Option String → Option String
nonempty none = none
nonempty (some s) = if s == "" then none else some s

abbrev pub container_matches : Option String → Server → Bool
container_matches expected r = r.container_id == nonempty expected

-- the WHERE clause of `transitionInTx`
abbrev pub claims : String → ServerStatus → Option String → Server → Bool
claims id expected container r = r.id == id && r.status == expected && container_matches container r

-- the SET clause; `undefined` leaves the container id
abbrev pub moved_to : ServerStatus → Option (Option String) → ℕ → Server → Server
moved_to next none now r = record r { status = next; updated_at = now }
moved_to next (some container) now r = record r {
  status = next;
  container_id = container;
  updated_at = now;
}

-- UPDATE servers SET … WHERE … RETURNING *: the first updated row
abbrev pub update_servers : (Server → Bool) → (Server → Server) → Db → Option Server × Db
update_servers p f db =
    (Option.map f (find p db.servers), record db { servers = update p f db.servers })

-- whether a row of the server `id` is deleted
abbrev pub is_deleted : (Server → Bool) → List Server → String → Bool
is_deleted p rs id = any (λ r. p r && r.id == id) rs

abbrev pub is_deleted_scope : (Server → Bool) → List Server → Option String → Bool
is_deleted_scope p rs none = false
is_deleted_scope p rs (some id) = is_deleted p rs id

abbrev pub is_scoped_to_deleted : (Server → Bool) → List Server → ModPermissionRow → Bool
is_scoped_to_deleted p rs row = is_deleted_scope p rs row.server_id

-- DELETE FROM servers WHERE …, which cascades to the access rows and the scoped permissions
abbrev pub delete_servers : (Server → Bool) → Db → Unit {0} × Db
delete_servers p db = (
  tt,
  record db {
    servers = filter (λ r. not (p r)) db.servers;
    server_access = filter (λ a. not (is_deleted p db.servers a.server_id)) db.server_access;
    mod_permissions = filter (λ m. not (is_scoped_to_deleted p db.servers m)) db.mod_permissions;
  },
)

-- INSERT INTO servers: the port and the id are unique, and the owner is a user
abbrev pub insert_server : Server → Db → Result Server × Db
insert_server row db =
    if any (λ r. r.port == row.port || r.id == row.id) db.servers
    then (err (database_error "23505"), db)
    else if not (any (λ u. u.id == row.owner_id) db.users)
    then (err (database_error "23503"), db)
    else (ok row, record db { servers = db.servers ++ row ∷ [] })

module _ (env : Env) where
  unfoldable pub transition :
      String
      → ServerStatus
      → ServerStatus
      → Option String
      → Option (Option String)
      → M (Option Server)
  transition id expected next container set_container = do
    now ← clock env
    statement env (update_servers (claims id expected container) (moved_to next set_container now))

  -- `transitionInTx` where the transaction holds the lifecycle lock
  unfoldable pub transition_in_tx :
      String
      → ServerStatus
      → ServerStatus
      → Option String
      → Option (Option String)
      → M (Option Server)
  transition_in_tx id expected next container set_container = do
    now ← clock env
    locked_statement env
        (update_servers (claims id expected container) (moved_to next set_container now))

  unfoldable pub claim_container_id : String → String → M (Option Server)
  claim_container_id id container = do
    now ← clock env
    statement env (
        update_servers (λ r. r.id == id && r.status == creating && r.container_id == none)
          (λ r. record r { container_id = some container; updated_at = now }))

  unfoldable pub delete_in_status : String → ServerStatus → M (Unit {0})
  delete_in_status id status =
      statement env (delete_servers (λ r. r.id == id && r.status == status))

  -- `SELECT pg_advisory_xact_lock(key)`: others run until the lock is taken
  unfoldable pub take_lock : M (Unit {0})
  take_lock = query env (λ db. tt)

-- `buildVisibilityPredicate`
unfoldable pub is_visible : ServerPrincipal → List ServerAccess → Server → Bool
is_visible principal rows r =
    not (r.status == creating)
    && (principal.role == admin
        || r.access_type == open_access
        || any (λ a. a.user_id == principal.id && a.server_id == r.id && a.status == approved) rows)

unfoldable pub find_visible : String → ServerPrincipal → Db → Option Server
find_visible id principal db =
    find (λ r. r.id == id && is_visible principal db.server_access r) db.servers
