-- ===== src/Guards/Permissions.antt =====
-- src/auth/guards/permissions.guard.ts: the permission that a route asks for.
pub mod Grants
mod Tests
use minepanel_backend.Common.{
  String, Bool, true, false, ◌&&◌, ◌||◌, Option, none, some, List, [], ◌∷◌, any, ◌==◌,
  if◌then◌else◌, string_eq, option_eq,
}
use minepanel_backend.Http.{Result, ok, err, forbidden, service_unavailable}
use minepanel_backend.Schema.{
  Role, admin, moderator, user, ModPermission, ModPermissionRow, mod_permission_eq,
}

-- the condition on the server of a grant
abbrev pub in_scope : Option String → ModPermissionRow → Bool
in_scope none r = r.server_id == none
in_scope (some server) r = r.server_id == none || r.server_id == some server

abbrev pub is_grant : String → ModPermission → Option String → ModPermissionRow → Bool
is_grant user_id permission server r =
    r.user_id == user_id && r.permission == permission && in_scope server r

-- the select of the grants table, of which `none` is a query that fails
abbrev pub check_grants :
    (ModPermissionRow → Bool) → Option (List ModPermissionRow) → Result (Unit {0})
check_grants where_clause none = err (service_unavailable "Permission check unavailable")
check_grants where_clause (some rows) =
    if any where_clause rows then ok tt else err (forbidden "Forbidden")

abbrev pub server_of : Option String → Option String
server_of none = none
server_of (some route_id) = if route_id == "" then none else some route_id

abbrev pub by_role :
    ModPermission
    → String
    → Role
    → Option String
    → Option (List ModPermissionRow)
    → Result (Unit {0})
by_role permission user_id admin route_id rows = ok tt
by_role permission user_id moderator route_id rows =
    check_grants (is_grant user_id permission (server_of route_id)) rows
by_role permission user_id user route_id rows = err (forbidden "Forbidden")

-- `canActivate`: the permission of the route, if it names one, the id and role of the request's
-- user, the route's parameter `id` (an array counts as none) and the grants table
unfoldable pub permissions_guard :
    Option ModPermission
    → Option (String × Role)
    → Option String
    → Option (List ModPermissionRow)
    → Result (Unit {0})
permissions_guard none principal route_id rows = ok tt
permissions_guard (some permission) none route_id rows = err (forbidden "Forbidden")
permissions_guard (some permission) (some (user_id, role)) route_id rows =
    by_role permission user_id role route_id rows
