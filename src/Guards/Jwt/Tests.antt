-- ===== src/Guards/Jwt/Tests.antt =====
-- The guard on concrete requests.
use minepanel_backend.Common.{
  ◌↔◌, String, ◌≡◌, refl, ◌==◌, string_eq, if◌then◌else◌, Option, none, some, [], ◌∷◌, false,
}
use minepanel_backend.Http.{ok, err, forbidden, unauthorized}
use minepanel_backend.Schema.{admin, user, active, banned}
use minepanel_backend.Auth.AccessToken.{
  Payload, plain, text, whole, parse_access_token_claims, verify,
}
use minepanel_backend.Guards.Jwt.{GuardedUser, jwt_guard}
use minepanel_backend.Guards.Jwt.Admission.{Admits, jwt_guard_iff}
use minepanel_backend.Scenarios.{account}

jwt_run : Unit {0}
unfolding jwt_guard verify parse_access_token_claims
jwt_run = tt

abbrev accepts : String → Option Payload
accepts token =
    if token == "good"
    then some (
        plain (record {
          sub = some (text "root");
          username = some (text "root");
          type = some (text "access");
          temporary_auth = none;
          exp = some (whole 1800000000);
          jti = none;
          temporary_credential_fingerprint = none;
        }))
    else none

abbrev root : GuardedUser
root = record { id = "root"; username = "root"; role = user; temporary_auth = false }

-- the role is that of the table
admits :
    jwt_guard accepts false
      (some "good")
      "GET"
      "/api/servers"
      (some (account "root" user active ∷ []))
    ≡ ok (some root)
unfolding jwt_run
admits = refl

refuses_banned :
    jwt_guard accepts false
      (some "good")
      "GET"
      "/api/servers"
      (some (account "root" admin banned ∷ []))
    ≡ err (forbidden "AccountBanned")
unfolding jwt_run
refuses_banned = refl

refuses_forged :
    jwt_guard accepts false
      (some "bad")
      "GET"
      "/api/servers"
      (some (account "root" admin active ∷ []))
    ≡ err (unauthorized "Unauthorized")
unfolding jwt_run
refuses_forged = refl

jwt_guard_iff_example :
    (jwt_guard accepts false
        (some "good")
        "GET"
        "/api/servers"
        (some (account "root" user active ∷ []))
      ≡ ok (some root))
    ↔ Admits accepts
        (some "good")
        "GET"
        "/api/servers"
        (some (account "root" user active ∷ []))
        root
jwt_guard_iff_example =
    jwt_guard_iff accepts (some "good") "GET" "/api/servers"
      (some (account "root" user active ∷ [])) root
