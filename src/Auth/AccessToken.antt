-- ===== src/Auth/AccessToken.antt =====
-- src/auth/access-token.service.ts: from an access token to the account that it stands for.
use minepanel_backend.Common.{
  ℕ, String, Bool, true, false, not, ◌||◌, Option, none, some, List, find, ltb, ◌*◌, ◌==◌,
  if◌then◌else◌, nat_eq, string_eq,
}
use minepanel_backend.Http.{Result, ok, err, unauthorized, forbidden}
use minepanel_backend.Schema.{Role, UserStatus, active, pending, banned, User}

-- A value in a verified payload: `whole` is a number that is a natural number, and `fraction n` one
-- between `n` and `n + 1`.
pub data ClaimValue : Type 0 where
  text : String → ClaimValue
  flag : Bool → ClaimValue
  whole : ℕ → ClaimValue
  fraction : ℕ → ClaimValue
  null : ClaimValue
  other : ClaimValue

-- the own fields of a plain object that `AccessTokenClaimsCandidate`, `RefreshTokenClaimsCandidate`
-- and `PreAuthPayloadCandidate` name
pub record Candidate : Type 0 where
  pub sub : Option ClaimValue
  pub username : Option ClaimValue
  pub type : Option ClaimValue
  pub temporary_auth : Option ClaimValue
  pub exp : Option ClaimValue
  pub jti : Option ClaimValue
  pub temporary_credential_fingerprint : Option ClaimValue

-- what `verifyAsync` answers
pub data Payload : Type 0 where
  plain : Candidate → Payload
  not_plain : Payload

pub record AccessTokenClaims : Type 0 where
  pub sub : String
  pub username : String
  pub temporary_auth : Option Bool
  pub exp : ℕ

pub record AccessTokenPrincipal : Type 0 where
  pub id : String
  pub username : String
  pub role : Role
  pub must_change_password : Bool
  pub temporary_auth : Bool
  pub exp : ℕ

-- `Math.floor(Number.MAX_SAFE_INTEGER / 1000)`
abbrev pub max_exp_seconds : ℕ
max_exp_seconds = 9007199254740

abbrev pub are_valid : String → String → ℕ → Bool
are_valid sub type exp =
    not (sub == "" || not (type == "access") || exp == 0 || ltb max_exp_seconds exp)

abbrev pub claims_of : String → String → ℕ → Option ClaimValue → Option AccessTokenClaims
claims_of sub username exp none =
    some (record { sub = sub; username = username; temporary_auth = none; exp = exp })
claims_of sub username exp (some (flag b)) =
    some (record { sub = sub; username = username; temporary_auth = some b; exp = exp })
claims_of sub username exp (some _) = none

abbrev pub parse_fields :
    Option ClaimValue
    → Option ClaimValue
    → Option ClaimValue
    → Option ClaimValue
    → Option ClaimValue
    → Option AccessTokenClaims
parse_fields (some (text sub)) (some (text username)) (some (text type)) temporary
      (some (whole exp)) =
    if are_valid sub type exp then claims_of sub username exp temporary else none
parse_fields _ _ _ _ _ = none

unfoldable pub parse_access_token_claims : Payload → Option AccessTokenClaims
parse_access_token_claims not_plain = none
parse_access_token_claims (plain c) = parse_fields c.sub c.username c.type c.temporary_auth c.exp

abbrev pub is_temporary : Option Bool → Bool
is_temporary (some true) = true
is_temporary _ = false

abbrev pub principal_of : AccessTokenClaims → User → AccessTokenPrincipal
principal_of claims u = record {
  id = claims.sub;
  username = claims.username;
  role = u.role;
  must_change_password = u.must_change_password;
  temporary_auth = is_temporary claims.temporary_auth;
  exp = claims.exp * 1000;
}

abbrev pub by_status : UserStatus → AccessTokenPrincipal → Result AccessTokenPrincipal
by_status pending principal = err (forbidden "AccountPending")
by_status banned principal = err (forbidden "AccountBanned")
by_status active principal = ok principal

abbrev pub of_user : AccessTokenClaims → Option User → Result AccessTokenPrincipal
of_user claims none = err (unauthorized "Unauthorized")
of_user claims (some u) = by_status u.status (principal_of claims u)

-- the select of the account, of which `none` is a query that fails
abbrev pub lookup_user : String → Option (List User) → Option User
lookup_user id none = none
lookup_user id (some users) = find (λ u. u.id == id) users

abbrev pub of_claims : Option AccessTokenClaims → Option (List User) → Result AccessTokenPrincipal
of_claims none users = err (unauthorized "Unauthorized")
of_claims (some claims) users = of_user claims (lookup_user claims.sub users)

abbrev pub of_payload : Option Payload → Option (List User) → Result AccessTokenPrincipal
of_payload none users = err (unauthorized "Unauthorized")
of_payload (some payload) users = of_claims (parse_access_token_claims payload) users

-- `verify_async` is the JWT library, with `none` for a token that it rejects
module _ (verify_async : String → Option Payload) where
  unfoldable pub verify : String → Option (List User) → Result AccessTokenPrincipal
  verify token users = of_payload (verify_async token) users
