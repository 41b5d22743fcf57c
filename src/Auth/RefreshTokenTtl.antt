-- ===== src/Auth/RefreshTokenTtl.antt =====
-- src/auth/refresh-token-ttl.ts: the lifetime of refresh tokens.
mod Tests
pub mod RoundTrip
use Prim.Native.Char.{Char, code}
use Prim.Native.String
use Prim.Native.String.{[], ◌∷◌}
use minepanel_backend.Common.{
  ℕ, ◌*◌, ◌^◌, ◌-◌, String, Bool, true, false, not, ◌&&◌, ◌||◌, Option, none, some, leb, ◌==◌,
  if◌then◌else◌, string_eq, nat_eq,
}
use minepanel_backend.Http.{Exception, Result, ok, err, error_thrown}
use minepanel_backend.Text.{trim, is_digit, decimal, decimal_value}

pub record RefreshTokenTtl : Type 0 where
  pub expires_in : String
  pub milliseconds : ℕ

-- `Number.MAX_SAFE_INTEGER`
abbrev pub max_safe_integer : ℕ
max_safe_integer = 2 ^ 53 - 1

abbrev pub default_refresh_token_ttl : String
default_refresh_token_ttl = "7d"

pub data DurationUnit : Type 0 where
  ms s m h d w : DurationUnit

-- `DURATION_UNITS_MS`
abbrev pub unit_ms : DurationUnit → ℕ
unit_ms ms = 1
unit_ms s = 1000
unit_ms m = 60000
unit_ms h = 3600000
unit_ms d = 86400000
unit_ms w = 604800000

abbrev pub unit_text : DurationUnit → String
unit_text ms = "ms"
unit_text s = "s"
unit_text m = "m"
unit_text h = "h"
unit_text d = "d"
unit_text w = "w"

-- the digits at the front, and the rest
unfoldable pub span_digits : String → String × String
span_digits [] = ([], [])
span_digits (c ∷ t) =
    let (digits, rest) = span_digits t in
    if is_digit (code c) then (c ∷ digits, rest) else ([], c ∷ t)

-- a letter of either case
abbrev pub is_letter_of : ℕ → ℕ → Bool
is_letter_of lower c = c == lower || c == (lower - 32)

-- the unit, in lower case
abbrev pub unit_of_codes : String → Option DurationUnit
unit_of_codes (a ∷ []) =
    if is_letter_of b's' (code a)
    then some s
    else if is_letter_of b'm' (code a)
    then some m
    else if is_letter_of b'h' (code a)
    then some h
    else if is_letter_of b'd' (code a)
    then some d
    else if is_letter_of b'w' (code a)
    then some w
    else none
unit_of_codes (a ∷ b ∷ []) =
    if is_letter_of b'm' (code a) && is_letter_of b's' (code b) then some ms else none
unit_of_codes _ = none

abbrev pub starts_positive : String → Bool
starts_positive [] = false
starts_positive (c ∷ t) = not (code c == b'0')

abbrev pub invalid_ttl : Exception
invalid_ttl = error_thrown "Invalid JWT_REFRESH_EXPIRES_IN"

abbrev pub ttl_of : ℕ → Option DurationUnit → Result RefreshTokenTtl
ttl_of amount none = err invalid_ttl
ttl_of amount (some unit) =
    if leb amount max_safe_integer && leb (amount * unit_ms unit) max_safe_integer
    then ok (record {
      expires_in = String.◌++◌ (decimal amount) (unit_text unit);
      milliseconds = amount * unit_ms unit;
    })
    else err invalid_ttl

-- `DURATION_PATTERN` and what follows it
abbrev pub ttl_of_parts : String × String → Result RefreshTokenTtl
ttl_of_parts (digits, unit) =
    if starts_positive digits
    then ttl_of (decimal_value 0 digits) (unit_of_codes unit)
    else err invalid_ttl

abbrev pub or_default : Option String → String
or_default none = default_refresh_token_ttl
or_default (some value) = value

unfoldable pub parse_refresh_token_ttl : Option String → Result RefreshTokenTtl
unfolding span_digits
parse_refresh_token_ttl value =
    let resolved = or_default value in
    if resolved == "" || not (resolved == trim resolved)
    then err invalid_ttl
    else ttl_of_parts (span_digits resolved)
