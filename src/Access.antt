-- ===== src/Access.antt =====
-- src/servers/server-access.service.ts: requests for access to a server, approval and revocation.
pub mod Statements
pub mod Steps
pub mod Writes
pub mod Traces
pub mod Controller
pub mod Reach
pub mod Sight
pub mod Branches
pub mod Outcome
pub mod Visibility
mod Tests
use minepanel_backend.Common.{
  ℕ, zero, suc, String, Bool, true, false, not, ◌&&◌, Option, none, some, List, map, filter, ◌==◌,
  if◌then◌else◌, string_eq,
}
use minepanel_backend.Http.{Exception, bad_request, conflict, not_found}
use minepanel_backend.Schema.{
  Db, User, Server, ServerAccess, ServerAccessStatus, pending, approved, AccessType, open_access,
  request_access, private_access, admin, role_eq, access_type_eq, access_status_eq,
}
use minepanel_backend.Effects.{
  Env, M, pure, throw, or_throw, throw_if, try_catch, query, ◌>>=◌, ◌>>◌,
}
use minepanel_backend.Servers.Statements.{ServerPrincipal}
use Statements.{
  try_insert_pending, try_insert_approved, try_approve_pending, find_access, load_server,
  load_target_user, delete_access,
}

pub record MyAccessRequest : Type 0 where
  pub status : ServerAccessStatus
  pub requested_at : ℕ
  pub approved_at : Option ℕ

-- toMyAccessRequest
abbrev pub to_my_access_request : ServerAccess → MyAccessRequest
to_my_access_request row = record {
  status = row.status;
  requested_at = row.created_at;
  approved_at = row.approved_at;
}

pub record AccessRequest : Type 0 where
  pub user_id : String
  pub username : String
  pub email : String
  pub status : ServerAccessStatus
  pub requested_at : ℕ
  pub approved_at : Option ℕ

abbrev pub to_access_request : User → ServerAccess → AccessRequest
to_access_request u row = record {
  user_id = u.id;
  username = u.username;
  email = u.email;
  status = row.status;
  requested_at = row.created_at;
  approved_at = row.approved_at;
}

-- `MAX_RACE_RETRIES`
abbrev pub max_race_retries : ℕ
max_race_retries = 1

abbrev server_gone : Exception
server_gone = not_found "Server not found"

-- what a row that is already there means to a new request
abbrev pub existing_conflict : ServerAccessStatus → Exception
existing_conflict pending = conflict "Access request already pending"
existing_conflict approved = conflict "Server access already approved"

module _ (env : Env) where
  -- the last attempt failed and the row is gone: `loadRequestableServer(id).catch(() => null)`
  unfoldable pub report_vanished : String → M ServerAccess
  report_vanished server_id = do
    found ← query env (load_server server_id)
    throw (elim found [
      | none ↦ server_gone
      | some server ↦
          if server.access_type == request_access
          then conflict "Access request state changed, please retry"
          else server_gone
    ])

  -- the server must still be there and take requests
  unfoldable pub check_requestable : String → M (Unit {0})
  check_requestable server_id = do
    found ← query env (load_server server_id)
    server ← or_throw found server_gone
    throw_if (not (server.access_type == request_access)) server_gone

  abbrev pub insert_settled : Option ServerAccess → M ServerAccess → M ServerAccess
  insert_settled (some row) rest = pure row
  insert_settled none rest = rest

  abbrev pub existing_settled : Option ServerAccess → M ServerAccess → M ServerAccess
  existing_settled (some row) rest = throw (existing_conflict row.status)
  existing_settled none rest = rest

  -- one attempt; `rest` is what follows when no row was inserted and none is there
  unfoldable pub upsert_attempt : String → String → M ServerAccess → M ServerAccess
  upsert_attempt server_id user_id rest = do
    inserted ← try_insert_pending env server_id user_id
    insert_settled inserted
        do existing ← query env (find_access server_id user_id); existing_settled existing rest

  -- `upsertPendingWithRetry` with the number of retries left
  unfoldable pub upsert_pending_with_retry : String → String → ℕ → M ServerAccess
  upsert_pending_with_retry server_id user_id zero =
      upsert_attempt server_id user_id (report_vanished server_id)
  upsert_pending_with_retry server_id user_id (suc left) =
      upsert_attempt server_id user_id
        do check_requestable server_id; upsert_pending_with_retry server_id user_id left

  unfoldable pub request_access_for : String → ServerPrincipal → M MyAccessRequest
  request_access_for server_id principal = do
    throw_if (principal.role == admin) (conflict "Admins already have access to all servers")
    found ← query env (load_server server_id)
    server ← or_throw found server_gone
    throw_if (server.access_type == open_access) (conflict "Server access is already open")
    throw_if (server.access_type == private_access) server_gone
    row ← upsert_pending_with_retry server_id principal.id max_race_retries
    pure (to_my_access_request row)

  unfoldable pub get_my_access_request : String → ServerPrincipal → M MyAccessRequest
  get_my_access_request server_id principal = do
    found ← query env (load_server server_id)
    server ← or_throw found server_gone
    throw_if (server.access_type == open_access) (not_found "Access request not found")
    throw_if (server.access_type == private_access) server_gone
    existing ← query env (find_access server_id principal.id)
    row ← or_throw existing (not_found "Access request not found")
    pure (to_my_access_request row)

  -- a row that the approval found and could not approve
  abbrev pub approve_existing : ServerAccessStatus → ℕ → M ServerAccess → M ServerAccess
  approve_existing approved left again = throw (conflict "Server access already approved")
  approve_existing pending zero again = throw (conflict "Access request still pending")
  approve_existing pending (suc left) again = again

  -- the last attempt: report what the row is now
  unfoldable pub report_unapproved : String → String → M ServerAccess
  report_unapproved server_id user_id = do
    existing ← query env (find_access server_id user_id)
    throw (elim existing [
      | none ↦ not_found "Access request not found"
      | some row ↦ elim row.status [
        | approved ↦ conflict "Server access already approved"
        | pending ↦ conflict "Access request still pending"
      ]
    ])

  abbrev pub approve_absent : ℕ → M ServerAccess → M ServerAccess → M ServerAccess
  approve_absent zero last again = last
  approve_absent (suc left) last again = again

  abbrev pub found_or_absent :
      Option ServerAccess → (ServerAccess → M ServerAccess) → M ServerAccess → M ServerAccess
  found_or_absent (some row) found absent = found row
  found_or_absent none found absent = absent

  -- one attempt of `approveWithRetry`; `again` is the next one
  unfoldable pub approve_attempt :
      AccessType → String → String → ℕ → M ServerAccess → M ServerAccess
  approve_attempt access_type server_id user_id left again = do
    claimed ← try_approve_pending env server_id user_id
    insert_settled claimed do
      existing ← query env (find_access server_id user_id)
      found_or_absent existing (λ row. approve_existing row.status left again)
          do
            throw_if (access_type == request_access) (not_found "Access request not found")
            inserted ← try_insert_approved env server_id user_id
            insert_settled inserted
                (approve_absent left (report_unapproved server_id user_id) again)

  -- `approveWithRetry` with the number of retries left
  unfoldable pub approve_with_retry : AccessType → String → String → ℕ → M ServerAccess
  approve_with_retry access_type server_id user_id zero =
      approve_attempt access_type server_id user_id zero
        (throw (not_found "Access request not found"))
  approve_with_retry access_type server_id user_id (suc left) =
      approve_attempt access_type server_id user_id (suc left)
        (approve_with_retry access_type server_id user_id left)

  unfoldable pub approve_access : String → String → M AccessRequest
  approve_access server_id target_user_id = do
    found ← query env (load_server server_id)
    server ← or_throw found server_gone
    listed ← query env (load_target_user target_user_id)
    target ← or_throw listed (not_found "User not found")
    throw_if (target.role == admin) (bad_request "Cannot assign access to an admin")
    throw_if (server.access_type == open_access) (conflict "Server access is already open")
    row ← approve_with_retry server.access_type server_id target_user_id max_race_retries
    pure (to_access_request target row)

  unfoldable pub revoke_access : String → String → M (Unit {0})
  revoke_access server_id target_user_id = do
    found ← query env (load_server server_id)
    or_throw found server_gone
    deleted ← delete_access env server_id target_user_id
    throw_if (not deleted) (not_found "Access request not found")
