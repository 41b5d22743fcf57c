-- ===== src/Auth/Password.antt =====
-- src/auth/password.ts: the limit on the bytes of a password.
use Prim.Native.Char.{code}
use Prim.Native.String.{[], ◌∷◌}
use minepanel_backend.Common.{ℕ, ◌+◌, String, ltb, leb, if◌then◌else◌}
use minepanel_backend.Http.{Result, ok, err, bad_request}

abbrev pub max_password_bytes : ℕ
max_password_bytes = 72

-- the length of a code point in UTF-8
abbrev utf8_bytes : ℕ → ℕ
utf8_bytes c = if ltb c 128 then 1 else if ltb c 2048 then 2 else if ltb c 65536 then 3 else 4

unfoldable pub byte_length : String → ℕ
byte_length [] = 0
byte_length (c ∷ s) = utf8_bytes (code c) + byte_length s

abbrev pub assert_password_within_byte_limit : String → Result (Unit {0})
assert_password_within_byte_limit password =
    if leb (byte_length password) max_password_bytes
    then ok tt
    else err (bad_request "Password must not exceed 72 UTF-8 bytes")
