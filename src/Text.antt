-- ===== src/Text.antt =====
-- The operations on strings that the source uses: trim, split, replace, and the character classes
-- of its regular expressions. Characters are code points.
pub mod Digits
pub mod Suffix
use Prim.Native.Char.{Char, code}
use Prim.Native.String
use Prim.Native.String.{String, [], ◌∷◌}
use mathlib.Core.List.{List, [], ◌∷◌}
use minepanel_backend.Common.{
  ℕ, zero, suc, Bool, true, false, Option, none, some, ◌&&◌, ◌||◌, ◌+◌, ◌-◌, ◌*◌, ◌/◌, ◌%◌, leb,
  ltb, nat_beq, if◌then◌else◌,
}

-- the characters that `trim` removes
pub is_space : ℕ → Bool
is_space c =
    (leb 9 c && leb c 13)
    || nat_beq c 32
    || nat_beq c 160
    || nat_beq c 5760
    || (leb 8192 c && leb c 8202)
    || nat_beq c 8232
    || nat_beq c 8233
    || nat_beq c 8239
    || nat_beq c 8287
    || nat_beq c 12288
    || nat_beq c 65279

pub trim_start : String → String
trim_start [] = []
trim_start (c ∷ s) = if is_space (code c) then trim_start s else c ∷ s

cons_trimmed : Char → String → String
cons_trimmed c [] = if is_space (code c) then [] else c ∷ []
cons_trimmed c (d ∷ s) = c ∷ d ∷ s

pub trim_end : String → String
trim_end [] = []
trim_end (c ∷ s) = cons_trimmed c (trim_end s)

unfoldable pub trim : String → String
unfolding is_space trim_start cons_trimmed trim_end
trim s = trim_end (trim_start s)

-- `/[\\/]/`
pub is_separator : ℕ → Bool
is_separator c = nat_beq c b'/' || nat_beq c b'\\'

begins_with : (ℕ → Bool) → String → Bool
begins_with p [] = false
begins_with p (c ∷ s) = p (code c)

push_head : Char → List String → List String
push_head c [] = (c ∷ []) ∷ []
push_head c (h ∷ t) = (c ∷ h) ∷ t

-- `split(/[\\/]+/)`
unfoldable pub split_path : String → List String
unfolding is_separator begins_with push_head
split_path [] = "" ∷ []
split_path (c ∷ s) =
    let rest = split_path s in
    if is_separator (code c)
    then (if begins_with is_separator s then rest else "" ∷ rest)
    else push_head c rest

cons_base : Char → String → String
cons_base c [] = if is_separator (code c) then [] else c ∷ []
cons_base c (d ∷ s) = c ∷ d ∷ s

-- `replace(/[\\/]+$/, '')`
unfoldable pub drop_separators : String → String
unfolding is_separator cons_base
drop_separators [] = []
drop_separators (c ∷ s) = cons_base c (drop_separators s)

is_break : ℕ → Bool
is_break c = nat_beq c 10 || nat_beq c 13

-- `replace(/[\r\n]+/g, ' ')`
unfoldable pub replace_breaks : String → String
unfolding is_break begins_with
replace_breaks [] = []
replace_breaks (c ∷ s) =
    let rest = replace_breaks s in
    if is_break (code c)
    then (if begins_with is_break s then rest else String.◌++◌ " " rest)
    else c ∷ rest

digit : ℕ → String
digit zero = "0"
digit (suc zero) = "1"
digit (suc (suc zero)) = "2"
digit (suc (suc (suc zero))) = "3"
digit (suc (suc (suc (suc zero)))) = "4"
digit (suc (suc (suc (suc (suc zero))))) = "5"
digit (suc (suc (suc (suc (suc (suc zero)))))) = "6"
digit (suc (suc (suc (suc (suc (suc (suc zero))))))) = "7"
digit (suc (suc (suc (suc (suc (suc (suc (suc zero)))))))) = "8"
digit _ = "9"

digits_on : ℕ → ℕ → String → String
digits_on zero n acc = acc
digits_on (suc fuel) n acc =
    let text = String.◌++◌ (digit (n % 10)) acc in
    let rest = digits_on fuel (n / 10) text in if ltb n 10 then text else rest

-- `String(n)` of a natural number; `n + 1` rounds are more than it has digits
unfoldable pub decimal : ℕ → String
unfolding digit digits_on
decimal n = digits_on (n + 1) n ""

pub all_chars : (ℕ → Bool) → String → Bool
all_chars p [] = true
all_chars p (c ∷ s) = if p (code c) then all_chars p s else false

pub count_chars : String → ℕ
count_chars [] = 0
count_chars (c ∷ s) = suc (count_chars s)

pub is_digit : ℕ → Bool
is_digit c = leb b'0' c && leb c b'9'

pub is_letter : ℕ → Bool
is_letter c = (leb b'a' c && leb c b'z') || (leb b'A' c && leb c b'Z')

pub is_hex_digit : ℕ → Bool
is_hex_digit c = is_digit c || (leb b'a' c && leb c b'f') || (leb b'A' c && leb c b'F')

pub is_alnum : ℕ → Bool
is_alnum c = is_digit c || is_letter c

cons_first : Char → Option (String × String) → Option (String × String)
cons_first c none = none
cons_first c (some (a, b)) = some (c ∷ a, b)

-- the text before the first `x` and the text behind it
pub split_at : ℕ → String → Option (String × String)
split_at x [] = none
split_at x (c ∷ s) = if nat_beq (code c) x then some ([], s) else cons_first c (split_at x s)

-- opening this opens the character classes
unfoldable pub classes : Unit {0}
unfolding all_chars count_chars is_digit is_letter is_hex_digit is_alnum cons_first split_at
classes = tt

-- a template literal
abbrev pub concat : List String → String
concat [] = ""
concat (part ∷ parts) = String.◌++◌ part (concat parts)

-- the value of a text of decimal digits, after the digits read so far
unfoldable pub decimal_value : ℕ → String → ℕ
decimal_value n [] = n
decimal_value n (c ∷ s) = decimal_value (n * 10 + (code c - b'0')) s

-- `startsWith`, the prefix first
unfoldable pub starts_with : String → String → Bool
starts_with [] s = true
starts_with (c ∷ p) [] = false
starts_with (c ∷ p) (d ∷ s) = nat_beq (code c) (code d) && starts_with p s

-- `slice(0, n)`
unfoldable pub slice : ℕ → String → String
slice zero s = []
slice (suc n) [] = []
slice (suc n) (c ∷ s) = c ∷ slice n s

-- `endsWith('/')`
unfoldable pub ends_with_slash : String → Bool
ends_with_slash [] = false
ends_with_slash (c ∷ []) = nat_beq (code c) b'/'
ends_with_slash (c ∷ d ∷ s) = ends_with_slash (d ∷ s)
