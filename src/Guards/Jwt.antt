-- ===== src/Guards/Jwt.antt =====
-- src/auth/guards/jwt-auth.guard.ts: who makes a request.
pub mod Admission
mod Tests
use minepanel_backend.Common.{
  String, Bool, true, false, ◌&&◌, Option, none, some, List, ◌==◌, if◌then◌else◌, string_eq,
}
use minepanel_backend.Http.{Exception, Result, ok, err, unauthorized, forbidden}
use minepanel_backend.Schema.{Role, User}
use minepanel_backend.Auth.AccessToken.{Payload, AccessTokenPrincipal, verify}

pub record GuardedUser : Type 0 where
  pub id : String
  pub username : String
  pub role : Role
  pub temporary_auth : Bool

abbrev pub guarded_user : AccessTokenPrincipal → GuardedUser
guarded_user p = record {
  id = p.id;
  username = p.username;
  role = p.role;
  temporary_auth = p.temporary_auth;
}

abbrev pub is_password_change_route : String → String → Bool
is_password_change_route method path = method == "PATCH" && path == "/api/auth/password"

-- the arguments after the principal: `mustChangePassword`, `temporaryAuth`, the password route
abbrev pub by_password : AccessTokenPrincipal → Bool → Bool → Bool → Result GuardedUser
by_password p true false route = err (unauthorized "Unauthorized")
by_password p true true route =
    if route then ok (guarded_user p) else err (forbidden "PasswordChangeRequired")
by_password p false true route = err (unauthorized "Unauthorized")
by_password p false false route = ok (guarded_user p)

-- the catch clause
abbrev pub guard_failure : Exception → Exception
guard_failure (forbidden m) = forbidden m
guard_failure _ = unauthorized "Unauthorized"

abbrev pub authenticated : Result AccessTokenPrincipal → Bool → Result GuardedUser
authenticated (err e) route = err (guard_failure e)
authenticated (ok p) route = by_password p p.must_change_password p.temporary_auth route

abbrev pub left_in_request : Result GuardedUser → Result (Option GuardedUser)
left_in_request (ok g) = ok (some g)
left_in_request (err e) = err e

module _ (verify_async : String → Option Payload) where
  -- the token of the cookie, if it is a text
  abbrev pub by_token : Option String → Bool → Option (List User) → Result GuardedUser
  by_token none route users = err (unauthorized "Unauthorized")
  by_token (some token) route users =
      if token == ""
      then err (unauthorized "Unauthorized")
      else authenticated (verify verify_async token users) route

  -- `canActivate`, with the user that it leaves in the request
  unfoldable pub jwt_guard :
      (is_public : Bool) (cookie : Option String) (method path : String)
      → Option (List User)
      → Result (Option GuardedUser)
  jwt_guard true cookie method path users = ok none
  jwt_guard false cookie method path users =
      left_in_request (by_token cookie (is_password_change_route method path) users)
