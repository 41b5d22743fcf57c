-- ===== src/Guards/PreAuth.antt =====
-- src/auth/guards/pre-auth.guard.ts: the token between the password and the second factor.
pub mod Kinds
mod Tests
use minepanel_backend.Common.{
  ℕ, String, Bool, true, false, not, ◌&&◌, Option, none, some, ◌==◌, if◌then◌else◌, nat_eq,
  string_eq,
}
use minepanel_backend.Http.{Exception, Result, ok, err, unauthorized}
use minepanel_backend.Text.{trim, split_at, all_chars, count_chars, is_space, is_hex_digit}
use minepanel_backend.Auth.AccessToken.{
  ClaimValue, text, flag, Candidate, Payload, plain, not_plain,
}
use minepanel_backend.Auth.Libraries.{Libraries, TokenCheck, accepted, expired, rejected}

pub record PreAuthPayload : Type 0 where
  pub sub : String
  pub temporary_credential_fingerprint : Option String

-- `/^[\da-f]{64}$/i`
unfoldable pub is_fingerprint : String → Bool
is_fingerprint s = count_chars s == 64 && all_chars is_hex_digit s

-- the flag and the fingerprint go together
abbrev pub pre_auth_kind : String → Option ClaimValue → Option ClaimValue → Option PreAuthPayload
pre_auth_kind sub none none = some (record { sub = sub; temporary_credential_fingerprint = none })
pre_auth_kind sub (some (flag true)) (some (text fingerprint)) =
    if is_fingerprint fingerprint
    then some (record { sub = sub; temporary_credential_fingerprint = some fingerprint })
    else none
pre_auth_kind sub _ _ = none

abbrev pub pre_auth_fields :
    Option ClaimValue
    → Option ClaimValue
    → Option ClaimValue
    → Option ClaimValue
    → Option PreAuthPayload
pre_auth_fields (some (text type)) (some (text sub)) temporary fingerprint =
    if type == "pre-auth" && not (trim sub == "")
    then pre_auth_kind sub temporary fingerprint
    else none
pre_auth_fields _ _ _ _ = none

-- `isPreAuthPayload`, with the payload
unfoldable pub pre_auth_payload : Payload → Option PreAuthPayload
unfolding is_fingerprint
pre_auth_payload not_plain = none
pre_auth_payload (plain c) =
    pre_auth_fields c.type c.sub c.temporary_auth c.temporary_credential_fingerprint

abbrev bare_unauthorized : Exception
bare_unauthorized = unauthorized "Unauthorized"

-- the two parts of the header, of which the second holds no space
abbrev pub bearer_of : (String → String) → Option (String × String) → Option String
bearer_of lower none = none
bearer_of lower (some (scheme, token)) =
    if lower scheme == "bearer" && not (token == "") && all_chars (λ c. not (is_space c)) token
    then some token
    else none

abbrev pub admitted : Option PreAuthPayload → Result PreAuthPayload
admitted none = err bare_unauthorized
admitted (some p) = ok p

abbrev pub checked : TokenCheck → Result PreAuthPayload
checked (accepted payload) = admitted (pre_auth_payload payload)
checked _ = err bare_unauthorized

module _ (lib : Libraries) where
  abbrev pub by_bearer : ℕ → Option String → Result PreAuthPayload
  by_bearer now none = err bare_unauthorized
  by_bearer now (some token) = checked (lib.verify_async now token)

  abbrev pub bearer_token : Option String → Option String
  bearer_token none = none
  bearer_token (some authorization) = bearer_of lib.to_lower_case (split_at b' ' authorization)

  -- `canActivate`, with the payload that it leaves in the request
  unfoldable pub pre_auth_guard : ℕ → Option String → Result PreAuthPayload
  pre_auth_guard now authorization = by_bearer now (bearer_token authorization)
