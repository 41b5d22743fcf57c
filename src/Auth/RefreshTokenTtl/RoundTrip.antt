-- ===== src/Auth/RefreshTokenTtl/RoundTrip.antt =====
-- src/auth/refresh-token-ttl.ts: every printed lifetime reads back.
use Prim.Native.Char.{Char, code}
use Prim.Native.String
use Prim.Native.String.{[], ◌∷◌}
use text.Mathlib.TextLemmas.{cons-append}
use minepanel_backend.Common.{
  ℕ, ◌*◌, ◌≤◌, ◌<◌, String, ◌≡◌, refl, sym, ap, ◌∙◌, subst, true, false, some, leb, Bool-cases, inl,
  inr, ◌==◌, ==-true, ==-refl, if◌then◌else◌, nat_eq, string_eq, arith,
}
use minepanel_backend.Http.{Result, ok, err}
use minepanel_backend.Text.{trim, trim_end, is_space, is_digit, classes, decimal}
use minepanel_backend.Text.Digits.{
  IsDigitOf, decimal-induction, decimal_value-decimal, decimal-positive,
}
use minepanel_backend.Auth.RefreshTokenTtl.{
  RefreshTokenTtl, max_safe_integer, DurationUnit, ms, s, m, h, d, w, unit_ms, unit_text,
  span_digits, unit_of_codes, starts_positive, ttl_of, ttl_of_parts, invalid_ttl,
  parse_refresh_token_ttl,
}

unit_of_codes-unit_text : (unit : DurationUnit) → unit_of_codes (unit_text unit) ≡ some unit
unit_of_codes-unit_text ms = refl
unit_of_codes-unit_text s = refl
unit_of_codes-unit_text m = refl
unit_of_codes-unit_text h = refl
unit_of_codes-unit_text d = refl
unit_of_codes-unit_text w = refl

-- a text of digits in front of a unit: it ends in no space, and its digits come apart from the unit
record Fits (unit digits : String) : Type 0 where
  first : Char
  rest : String
  shape : String.◌++◌ digits unit ≡ first ∷ rest
  ends : trim_end (first ∷ rest) ≡ first ∷ rest
  spans : span_digits (first ∷ rest) ≡ (digits, unit)

is_digit-IsDigitOf : (n : ℕ) (c : Char) → IsDigitOf n c → is_digit (code c) ≡ true
unfolding classes
is_digit-IsDigitOf n c k =
    let value = k.value in let small = k.small in ground (arith, value, small)

step-Fits :
    (unit : String) (n : ℕ) (c : Char) (digits : String)
    → IsDigitOf n c
    → Fits unit digits
    → Fits unit (c ∷ digits)
unfolding trim span_digits
step-Fits unit n c digits k fits = record {
  first = c;
  rest = fits.first ∷ fits.rest;
  shape = cons-append c digits unit ∙ ap (λ s. c ∷ s) fits.shape;
  ends = rw (fits.ends) refl;
  spans = rw (fits.spans, is_digit-IsDigitOf n c k) refl;
}

base-Fits : (unit : DurationUnit) → Fits (unit_text unit) ""
unfolding trim span_digits classes
base-Fits ms = record { first = "m"; rest = "s"; shape = refl; ends = refl; spans = refl }
base-Fits s = record { first = "s"; rest = ""; shape = refl; ends = refl; spans = refl }
base-Fits m = record { first = "m"; rest = ""; shape = refl; ends = refl; spans = refl }
base-Fits h = record { first = "h"; rest = ""; shape = refl; ends = refl; spans = refl }
base-Fits d = record { first = "d"; rest = ""; shape = refl; ends = refl; spans = refl }
base-Fits w = record { first = "w"; rest = ""; shape = refl; ends = refl; spans = refl }

decimal-Fits : (unit : DurationUnit) (n : ℕ) → Fits (unit_text unit) (decimal n)
decimal-Fits unit =
    decimal-induction (Fits (unit_text unit)) (step-Fits (unit_text unit)) (base-Fits unit)

-- a text whose first character is a digit and that ends in no space is its own trimmed form
trim-digit :
    (c : Char) (text : String)
    → 48 < code c
    → code c ≤ 57
    → trim_end (c ∷ text) ≡ c ∷ text
    → trim (c ∷ text) ≡ c ∷ text
unfolding trim
trim-digit c text low high ends =
    let visible : is_space (code c) ≡ false = ground (arith, low, high) in rw (visible, ends) refl

same_first : {c d : Char} {a b : String} → c ∷ a ≡ d ∷ b → c ≡ d
same_first e = cc

cons≢nil : {c : Char} {text : String} → c ∷ text ≡ "" → ⊥
cons≢nil e = cc

not_empty : (c : Char) (text : String) → ((c ∷ text) == "") ≡ false
not_empty c text = elim (Bool-cases ((c ∷ text) == "")) [
  | inl same ↦ absurd (cons≢nil (==-true same))
  | inr other ↦ other
]

parse-trimmed :
    (c : Char) (text : String)
    → trim (c ∷ text) ≡ c ∷ text
    → parse_refresh_token_ttl (some (c ∷ text)) ≡ ttl_of_parts (span_digits (c ∷ text))
unfolding parse_refresh_token_ttl
parse-trimmed c text trimmed = rw (not_empty c text, trimmed, ==-refl (c ∷ text)) refl

starts_positive-first : (c : Char) (text : String) → 48 < code c → starts_positive (c ∷ text) ≡ true
starts_positive-first c text low = ground (arith, low)

unit_ms-le : (unit : DurationUnit) (n : ℕ) → n ≤ n * unit_ms unit
unit_ms-le ms n = omega arith
unit_ms-le s n = omega arith
unit_ms-le m n = omega arith
unit_ms-le h n = omega arith
unit_ms-le d n = omega arith
unit_ms-le w n = omega arith

abbrev read_back : ℕ → DurationUnit → Result RefreshTokenTtl
read_back n unit =
    if leb (n * unit_ms unit) max_safe_integer
    then ok (record {
      expires_in = String.◌++◌ (decimal n) (unit_text unit);
      milliseconds = n * unit_ms unit;
    })
    else err invalid_ttl

ttl_of-some : (n : ℕ) (unit : DurationUnit) → ttl_of n (some unit) ≡ read_back n unit
ttl_of-some n unit = elim (Bool-cases (leb (n * unit_ms unit) max_safe_integer)) [
  | inl safe ↦
      let below = unit_ms-le unit n in
      let small : leb n max_safe_integer ≡ true = ground (arith, below, safe) in
      rw (safe, small) refl
  | inr large ↦ elim (Bool-cases (leb n max_safe_integer)) [
    | inl small ↦ rw (large, small) refl
    | inr huge ↦ rw (large, huge) refl
  ]
]

parts :
    (n : ℕ) (unit : DurationUnit) (c : Char) (digits : String)
    → decimal n ≡ c ∷ digits
    → 48 < code c
    → ttl_of_parts (decimal n, unit_text unit) ≡ read_back n unit
parts n unit c digits printed low =
    let positive : starts_positive (decimal n) ≡ true =
      subst (λ s. starts_positive s ≡ true) (sym printed) (starts_positive-first c digits low) in
    rw (positive, decimal_value-decimal n, unit_of_codes-unit_text unit) (ttl_of-some n unit)

parsed :
    (n : ℕ) (unit : DurationUnit)
    → 0 < n
    → parse_refresh_token_ttl (some (String.◌++◌ (decimal n) (unit_text unit))) ≡ (
        if leb (n * unit_ms unit) max_safe_integer
        then ok (record {
          expires_in = String.◌++◌ (decimal n) (unit_text unit);
          milliseconds = n * unit_ms unit;
        })
        else err invalid_ttl)
parsed n unit positive =
    let (c, digits, printed, low, high) = decimal-positive n positive in
    let fits = decimal-Fits unit n in
    let same : c ≡ fits.first = same_first (
      sym (cons-append c digits (unit_text unit))
      ∙ ap (λ s. String.◌++◌ s (unit_text unit)) (sym printed)
      ∙ fits.shape) in
    ap (λ s. parse_refresh_token_ttl (some s)) fits.shape
    ∙ parse-trimmed fits.first fits.rest (
        trim-digit fits.first fits.rest (subst (λ x. 48 < code x) same low)
          (subst (λ x. code x ≤ 57) same high) fits.ends)
    ∙ ap ttl_of_parts fits.spans
    ∙ parts n unit c digits printed low

-- the milliseconds in a unit, from its definition
abbrev pub milliseconds_in : DurationUnit → ℕ
milliseconds_in ms = 1
milliseconds_in s = 1000
milliseconds_in m = 60 * 1000
milliseconds_in h = 60 * 60 * 1000
milliseconds_in d = 24 * 60 * 60 * 1000
milliseconds_in w = 7 * 24 * 60 * 60 * 1000

unit_ms-milliseconds_in : (unit : DurationUnit) → unit_ms unit ≡ milliseconds_in unit
unit_ms-milliseconds_in ms = refl
unit_ms-milliseconds_in s = refl
unit_ms-milliseconds_in m = refl
unit_ms-milliseconds_in h = refl
unit_ms-milliseconds_in d = refl
unit_ms-milliseconds_in w = refl

-- A positive number of one of the six units, printed as `JWT_REFRESH_EXPIRES_IN`, reads back as
-- itself with its milliseconds, and is refused exactly if those exceed the largest safe integer.
pub parse_refresh_token_ttl-decimal :
    (n : ℕ) (unit : DurationUnit)
    → 0 < n
    → parse_refresh_token_ttl (some (String.◌++◌ (decimal n) (unit_text unit))) ≡ (
        if leb (n * milliseconds_in unit) max_safe_integer
        then ok (record {
          expires_in = String.◌++◌ (decimal n) (unit_text unit);
          milliseconds = n * milliseconds_in unit;
        })
        else err invalid_ttl)
parse_refresh_token_ttl-decimal n unit positive =
    parsed n unit positive
    ∙ ap
        (λ k.
          if leb (n * k) max_safe_integer
          then ok (record {
            expires_in = String.◌++◌ (decimal n) (unit_text unit);
            milliseconds = n * k;
          })
          else err invalid_ttl)
        (unit_ms-milliseconds_in unit)
