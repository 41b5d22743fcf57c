-- ===== src/Access/Statements.antt =====
-- src/servers/server-access.service.ts: its SQL statements.
use mathlib.Core.Option
use minepanel_backend.Common.{
  ℕ, String, Bool, not, ◌&&◌, ◌||◌, Option, none, some, [], ◌∷◌, ◌++◌, any, find, filter, update,
  ◌==◌, if◌then◌else◌, string_eq,
}
use minepanel_backend.Http.{Result, ok, err, database_error}
use minepanel_backend.Schema.{
  Db, User, Server, ServerAccess, ServerAccessStatus, pending, approved, creating, server_status_eq,
  access_status_eq,
}
use minepanel_backend.Effects.{Env, M, lift, clock, fresh_id, statement, ◌>>=◌}

-- the row of a user and a server
abbrev pub is_access_of : String → String → ServerAccess → Bool
is_access_of server_id user_id row = row.server_id == server_id && row.user_id == user_id

-- `findAccess`
abbrev pub find_access : String → String → Db → Option ServerAccess
find_access server_id user_id db = find (is_access_of server_id user_id) db.server_access

-- `loadRequestableServer` and `loadServerForAdmin`
unfoldable pub load_server : String → Db → Option Server
load_server server_id db = find (λ r. r.id == server_id && not (r.status == creating)) db.servers

abbrev pub load_target_user : String → Db → Option User
load_target_user user_id db = find (λ u. u.id == user_id) db.users

-- INSERT … ON CONFLICT DO NOTHING RETURNING: the pair of user and server is unique, both exist
abbrev pub insert_access : ServerAccess → Db → Result (Option ServerAccess) × Db
insert_access row db =
    if any (λ r. is_access_of row.server_id row.user_id r || r.id == row.id) db.server_access
    then (ok none, db)
    else if any (λ r. r.id == row.server_id) db.servers && any (λ u. u.id == row.user_id) db.users
    then (ok (some row), record db { server_access = db.server_access ++ row ∷ [] })
    else (err (database_error "23503"), db)

abbrev pub is_pending_of : String → String → ServerAccess → Bool
is_pending_of server_id user_id row = is_access_of server_id user_id row && row.status == pending

abbrev pub approve_row : ℕ → ServerAccess → ServerAccess
approve_row now row = record row { status = approved; approved_at = some now }

-- UPDATE … SET status, approved_at WHERE … status = 'PENDING' RETURNING
abbrev pub approve_rows : String → String → ℕ → Db → Option ServerAccess × Db
approve_rows server_id user_id now db = (
  Option.map (approve_row now) (find (is_pending_of server_id user_id) db.server_access),
  record db {
    server_access = update (is_pending_of server_id user_id) (approve_row now) db.server_access;
  },
)

-- DELETE … RETURNING: whether there was a row
abbrev pub delete_rows : String → String → Db → Bool × Db
delete_rows server_id user_id db = (
  any (is_access_of server_id user_id) db.server_access,
  record db {
    server_access = filter (λ r. not (is_access_of server_id user_id r)) db.server_access;
  },
)

abbrev pub access_row : String → String → String → ServerAccessStatus → ℕ → Option ℕ → ServerAccess
access_row id server_id user_id status now approved_at = record {
  id = id;
  user_id = user_id;
  server_id = server_id;
  status = status;
  created_at = now;
  approved_at = approved_at;
}

module _ (env : Env) where
  unfoldable pub try_insert_pending : String → String → M (Option ServerAccess)
  try_insert_pending server_id user_id = do
    id ← fresh_id env
    now ← clock env
    inserted ← statement env (insert_access (access_row id server_id user_id pending now none))
    lift inserted

  unfoldable pub try_insert_approved : String → String → M (Option ServerAccess)
  try_insert_approved server_id user_id = do
    id ← fresh_id env
    now ← clock env
    inserted ←
        statement env (insert_access (access_row id server_id user_id approved now (some now)))
    lift inserted

  unfoldable pub try_approve_pending : String → String → M (Option ServerAccess)
  try_approve_pending server_id user_id = do
    now ← clock env
    statement env (approve_rows server_id user_id now)

  unfoldable pub delete_access : String → String → M Bool
  delete_access server_id user_id = statement env (delete_rows server_id user_id)
