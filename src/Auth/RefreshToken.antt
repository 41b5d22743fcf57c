-- ===== src/Auth/RefreshToken.antt =====
-- src/auth/auth.service.ts: the claims of refresh tokens.
use minepanel_backend.Common.{
  String, Bool, true, false, not, ◌&&◌, Option, none, some, ltb, leb, ◌==◌, if◌then◌else◌, nat_eq,
  string_eq,
}
use minepanel_backend.Http.{Exception, Result, ok, err, unauthorized}
use minepanel_backend.Text.{split_at}
use minepanel_backend.Auth.AccessToken.{
  ClaimValue, text, flag, whole, fraction, Payload, plain, not_plain, max_exp_seconds,
}
use minepanel_backend.Auth.Libraries.{Libraries}

-- `requireRefreshToken`
abbrev pub require_refresh_token : Option String → Result String
require_refresh_token none = err (unauthorized "RefreshTokenMissing")
require_refresh_token (some value) =
    if value == "" then err (unauthorized "RefreshTokenMalformed") else ok value

pub record RefreshTokenClaims : Type 0 where
  pub sub : String
  pub jti : String
  pub temporary_auth : Bool

abbrev pub is_expiry : ClaimValue → Bool
is_expiry (whole n) = not (n == 0) && leb n max_exp_seconds
is_expiry (fraction n) = ltb n max_exp_seconds
is_expiry _ = false

abbrev pub with_temporary : String → String → Option ClaimValue → Option RefreshTokenClaims
with_temporary sub jti none = some (record { sub = sub; jti = jti; temporary_auth = false })
with_temporary sub jti (some (flag b)) = some (record { sub = sub; jti = jti; temporary_auth = b })
with_temporary sub jti (some _) = none

abbrev pub refresh_fields :
    Option ClaimValue
    → Option ClaimValue
    → Option ClaimValue
    → Option ClaimValue
    → Option ClaimValue
    → Option RefreshTokenClaims
refresh_fields (some (text sub)) (some (text type)) (some (text jti)) temporary (some exp) =
    if not (sub == "") && type == "refresh" && not (jti == "") && is_expiry exp
    then with_temporary sub jti temporary
    else none
refresh_fields _ _ _ _ _ = none

-- `isValidRefreshTokenClaims`, with the claims that it admits
unfoldable pub valid_refresh_claims : Payload → Option RefreshTokenClaims
valid_refresh_claims not_plain = none
valid_refresh_claims (plain c) = refresh_fields c.sub c.type c.jti c.temporary_auth c.exp

abbrev pub is_other_type : Option ClaimValue → Bool
is_other_type none = false
is_other_type (some (text type)) = not (type == "refresh")
is_other_type (some _) = true

-- why a verified payload is no refresh token
abbrev pub claims_failure : Payload → Exception
claims_failure not_plain = unauthorized "RefreshTokenMalformed"
claims_failure (plain c) =
    unauthorized (if is_other_type c.type then "TokenWrongPurpose" else "RefreshTokenMalformed")

abbrev pub before_dot : String → Option (String × String) → String
before_dot rest none = rest
before_dot rest (some (payload, signature)) = payload

-- `split('.')[1]`
abbrev pub second_part : Option (String × String) → Option String
second_part none = none
second_part (some (header, rest)) = some (before_dot rest (split_at b'.' rest))

abbrev pub jti_of : Option RefreshTokenClaims → Result String
jti_of none = err (unauthorized "RefreshTokenInvalid")
jti_of (some claims) = ok claims.jti

abbrev pub parsed_id : Option Payload → Result String
parsed_id none = err (unauthorized "RefreshTokenMalformed")
parsed_id (some payload) = jti_of (valid_refresh_claims payload)

abbrev pub segment_id : Libraries → Option String → Result String
segment_id lib none = err (unauthorized "RefreshTokenMalformed")
segment_id lib (some segment) =
    if segment == ""
    then err (unauthorized "RefreshTokenMalformed")
    else parsed_id (lib.parse_segment segment)

-- `readRefreshTokenId`
unfoldable pub read_refresh_token_id : Libraries → String → Result String
unfolding valid_refresh_claims
read_refresh_token_id lib token = segment_id lib (second_part (split_at b'.' token))
