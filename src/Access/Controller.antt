-- ===== src/Access/Controller.antt =====
-- src/servers/server-access.controller.ts: the routes on the access to one server.
use mathlib.Core.Option
use minepanel_backend.Common.{String, Option, none, some, List, [], ◌∷◌}
use minepanel_backend.Http.{forbidden}
use minepanel_backend.Schema.{Role, admin}
use minepanel_backend.Effects.{Env, M, pure, lift, or_throw, ◌>>=◌, ◌>>◌}
use minepanel_backend.Guards.Roles.{roles_guard}
use minepanel_backend.Servers.Statements.{ServerPrincipal}
use minepanel_backend.Access.{
  request_access_for, get_my_access_request, approve_access, revoke_access,
}

pub data AccessRoute : Type 0 where
  request mine : AccessRoute
  approve revoke : (user_id : String) → AccessRoute

-- `@Roles('ADMIN')`
abbrev pub required_roles : AccessRoute → Option (List Role)
required_roles request = none
required_roles mine = none
required_roles (approve user_id) = some (admin ∷ [])
required_roles (revoke user_id) = some (admin ∷ [])

module _ (env : Env) (server_id : String) (caller : Option ServerPrincipal) where
  -- the methods of the controller, without their response bodies
  unfoldable pub serve_access : AccessRoute → M (Unit {0})
  serve_access request = do
    principal ← or_throw caller (forbidden "Forbidden")
    request_access_for env server_id principal
    pure tt
  serve_access mine = do
    principal ← or_throw caller (forbidden "Forbidden")
    get_my_access_request env server_id principal
    pure tt
  serve_access (approve user_id) = do approve_access env server_id user_id; pure tt
  serve_access (revoke user_id) = revoke_access env server_id user_id

  -- a route behind the guard of its roles
  unfoldable pub handle_access : AccessRoute → M (Unit {0})
  handle_access route = do
    lift (roles_guard (required_roles route) (Option.map (λ p. p.role) caller))
    serve_access route
