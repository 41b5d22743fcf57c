-- ===== src/Guards/Permissions/Tests.antt =====
-- The permission guard on concrete requests.
use minepanel_backend.Common.{◌≡◌, refl, ◌↔◌, none, some, List, [], ◌∷◌}
use minepanel_backend.Http.{ok, err, forbidden, service_unavailable}
use minepanel_backend.Schema.{moderator, server_config, server_lifecycle, ModPermissionRow}
use minepanel_backend.Guards.Permissions.{permissions_guard}
use minepanel_backend.Guards.Permissions.Grants.{Allowed, permissions_guard_iff}

abbrev table : List ModPermissionRow
table =
    record {
      id = "g1";
      user_id = "mia";
      permission = server_config;
      server_id = some "lobby";
      created_at = 0;
    }
    ∷ []

passes_there :
    permissions_guard (some server_config) (some ("mia", moderator)) (some "lobby") (some table)
    ≡ ok tt
unfolding permissions_guard
passes_there = refl

refused_elsewhere :
    permissions_guard (some server_config) (some ("mia", moderator)) (some "arena") (some table)
    ≡ err (forbidden "Forbidden")
unfolding permissions_guard
refused_elsewhere = refl

unreadable :
    permissions_guard (some server_lifecycle) (some ("mia", moderator)) none none
    ≡ err (service_unavailable "Permission check unavailable")
unfolding permissions_guard
unreadable = refl

permissions_guard_iff_example :
    (permissions_guard (some server_config) (some ("mia", moderator)) (some "lobby") (some table)
      ≡ ok tt)
    ↔ Allowed (some server_config) (some ("mia", moderator)) (some "lobby") (some table)
permissions_guard_iff_example =
    permissions_guard_iff (some server_config) (some ("mia", moderator)) (some "lobby") (some table)
