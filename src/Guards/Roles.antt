-- ===== src/Guards/Roles.antt =====
-- src/auth/guards/roles.guard.ts: the roles that a route asks for.
use minepanel_backend.Common.{Bool, Option, none, some, List, any, ◌==◌, ◌||◌, if◌then◌else◌}
use minepanel_backend.Http.{Result, ok, err, forbidden}
use minepanel_backend.Schema.{Role, admin, role_eq}

abbrev pub has_role : List Role → Role → Bool
has_role roles role = role == admin || any (λ r. r == role) roles

-- `canActivate`: the roles of the route, if it names any, and the role of the request's user
abbrev pub roles_guard : Option (List Role) → Option Role → Result (Unit {0})
roles_guard none role = ok tt
roles_guard (some roles) none = err (forbidden "Forbidden")
roles_guard (some roles) (some role) =
    if has_role roles role then ok tt else err (forbidden "Forbidden")
