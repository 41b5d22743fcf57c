-- ===== src/Guards/Csrf.antt =====
-- src/common/guards/csrf-origin.guard.ts and src/common/cors-origin.ts: from where a browser may
-- send requests that change something.
pub mod Admission
pub mod Tests
use minepanel_backend.Common.{
  String, Bool, false, not, ◌&&◌, ◌||◌, Option, none, some, [], ◌∷◌, ◌==◌, if◌then◌else◌, string_eq,
  nat_eq,
}
use minepanel_backend.Http.{Result, ok, err, forbidden, error_thrown}
use minepanel_backend.Text.{trim, all_chars, concat, ends_with_slash}

-- what `new URL` gives
pub record Url : Type 0 where
  pub protocol : String
  pub username : String
  pub password : String
  pub pathname : String
  pub search : String
  pub hash : String
  pub origin : String

abbrev pub default_origin : String
default_origin = "http://localhost:5173"

abbrev pub raw_origin : Option String → String
raw_origin none = default_origin
raw_origin (some raw) = raw

-- the tests on the parsed value, in their order
abbrev pub checked_url : Url → Result String
checked_url u =
    if not (u.protocol == "http:") && not (u.protocol == "https:")
    then err (error_thrown "CORS_ORIGIN must use http: or https:")
    else if not (u.username == "") || not (u.password == "")
    then err (error_thrown "CORS_ORIGIN must not contain credentials")
    else if not (u.pathname == "/")
    then err (error_thrown "CORS_ORIGIN must not contain a path")
    else if not (u.search == "")
    then err (error_thrown "CORS_ORIGIN must not contain a query string")
    else if not (u.hash == "")
    then err (error_thrown "CORS_ORIGIN must not contain a fragment")
    else ok u.origin

abbrev pub parsed_origin : String → Option Url → Result String
parsed_origin raw none = err (error_thrown (concat ("CORS_ORIGIN is not a valid URL: " ∷ raw ∷ [])))
parsed_origin raw (some u) = checked_url u

-- `getCanonicalCorsOrigin`; `parse_url` is `new URL`, with `none` where it throws
unfoldable pub get_canonical_cors_origin : (String → Option Url) → Option String → Result String
get_canonical_cors_origin parse_url configured =
    let raw = raw_origin configured in
    if not (raw == trim raw)
    then err (error_thrown "CORS_ORIGIN must not have surrounding whitespace")
    else if raw == ""
    then err (error_thrown "CORS_ORIGIN must not be empty")
    else if not (all_chars (λ c. not (c == b',')) raw)
    then err (error_thrown "CORS_ORIGIN must be exactly one origin, not a comma-separated list")
    else if raw == "null" || raw == "*" || ends_with_slash raw
    then err (error_thrown "CORS_ORIGIN must be an absolute http(s) origin")
    else parsed_origin raw (parse_url raw)

-- the header `Origin`
pub data OriginHeader : Type 0 where
  absent : OriginHeader
  single : String → OriginHeader
  repeated : OriginHeader

abbrev pub is_mutating : String → Bool
is_mutating method = method == "POST" || method == "PUT" || method == "PATCH" || method == "DELETE"

abbrev pub is_own_origin : String → Option String → String → Bool
is_own_origin protocol none origin = false
is_own_origin protocol (some host) origin = origin == concat (protocol ∷ "://" ∷ host ∷ [])

-- `isAllowedOrigin`
abbrev pub is_allowed_origin : String → String → Option String → String → Bool
is_allowed_origin canonical protocol host origin =
    origin == canonical || is_own_origin protocol host origin

abbrev pub origin_result : String → String → Option String → OriginHeader → Result (Unit {0})
origin_result canonical protocol host absent = ok tt
origin_result canonical protocol host repeated = err (forbidden "CsrfOriginForbidden")
origin_result canonical protocol host (single origin) =
    if is_allowed_origin canonical protocol host origin
    then ok tt
    else err (forbidden "CsrfOriginForbidden")

-- `canActivate`: the canonical origin, whether the context is HTTP, and the request's method,
-- protocol, host and origin
unfoldable pub csrf_origin_guard :
    (canonical : String) (is_http : Bool) (method protocol : String) (host : Option String)
    → OriginHeader
    → Result (Unit {0})
csrf_origin_guard canonical is_http method protocol host origin =
    if not is_http || not (is_mutating method)
    then ok tt
    else origin_result canonical protocol host origin
