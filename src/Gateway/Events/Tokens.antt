-- ===== src/Gateway/Events/Tokens.antt =====
-- src/gateway/events.gateway.ts: the token in a cookie header or in an `auth` message.
use Prim.Native.Char.{Char, code}
use Prim.Native.String.{String}
use minepanel_backend.Common.{
  ℕ, ◌*◌, Bool, true, not, ◌||◌, Option, none, some, is_some, List, [], ◌∷◌, ltb, ◌==◌,
  if◌then◌else◌, string_eq, nat_eq,
}
use minepanel_backend.Text.{trim, split_at}
use minepanel_backend.Auth.Password.{byte_length}

pub data CookieParseResult : Type 0 where
  token : String → CookieParseResult
  invalid absent : CookieParseResult

-- the header `Cookie`
pub data CookieHeader : Type 0 where
  no_header : CookieHeader
  one_header : String → CookieHeader
  many_headers : CookieHeader

-- the data of an event: an object with its prototype and its fields, of which `some` are texts
pub data AuthEventValue : Type 0 where
  auth_object : (is_plain : Bool) → List (String × Option String) → AuthEventValue
  auth_other : AuthEventValue

abbrev pub cookie_header_max_bytes : ℕ
cookie_header_max_bytes = 16 * 1024

abbrev pub token_max_bytes : ℕ
token_max_bytes = 8192

abbrev pub cons_char : Char → List String → List String
cons_char c [] = String.◌∷◌ c String.[] ∷ []
cons_char c (part ∷ parts) = String.◌∷◌ c part ∷ parts

-- `split(';')`
unfoldable pub split_semicolons : String → List String
split_semicolons String.[] = "" ∷ []
split_semicolons (String.◌∷◌ c s) =
    let rest = split_semicolons s in if code c == b';' then "" ∷ rest else cons_char c rest

-- `decode` is `decodeURIComponent`, with `none` where it throws
module _ (decode : String → Option String) where
  -- the result of a part that gives a token, with the one found before
  abbrev pub decoded_token : Option String → Option String → Option (Option String)
  decoded_token found none = none
  decoded_token found (some decoded) =
      if ltb token_max_bytes (byte_length decoded)
      then none
      else if not (is_some found)
      then some (some decoded)
      else none

  abbrev pub value_token : Option String → String → Option (Option String)
  value_token found value = if value == "" then none else decoded_token found (decode value)

  abbrev pub part_token : Option String → Option (String × String) → Option (Option String)
  part_token found none = some found
  part_token found (some (name, value)) =
      if trim name == "access_token" then value_token found (trim value) else some found

  abbrev pub result_of : Option String → CookieParseResult
  result_of none = absent
  result_of (some t) = token t

  unfoldable pub scan_parts : Option String → List String → CookieParseResult
  scan_parts found [] = result_of found
  scan_parts found (part ∷ parts) = elim (part_token found (split_at b'=' part)) [
    | none ↦ invalid
    | some next ↦ scan_parts next parts
  ]

  -- `parseAccessCookie`
  unfoldable pub parse_access_cookie : CookieHeader → CookieParseResult
  unfolding split_semicolons scan_parts
  parse_access_cookie no_header = absent
  parse_access_cookie many_headers = invalid
  parse_access_cookie (one_header header) =
      if ltb cookie_header_max_bytes (byte_length header)
      then invalid
      else scan_parts none (split_semicolons header)

abbrev pub payload_value : Option String → CookieParseResult
payload_value none = invalid
payload_value (some value) =
    if value == "" || ltb token_max_bytes (byte_length value) then invalid else token value

-- `parseAuthPayload`
abbrev pub parse_auth_payload : AuthEventValue → CookieParseResult
parse_auth_payload (auth_object true ((key, value) ∷ [])) =
    if key == "accessToken" then payload_value value else invalid
parse_auth_payload _ = invalid
