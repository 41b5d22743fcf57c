-- ===== src/Auth/Login/CodeTests.antt =====
-- Temporary passwords and backup codes on concrete data.
use Prim.Native.Char.{Char, code}
use Prim.Native.String.{[], ◌∷◌}
use minepanel_backend.Common.{
  ℕ, String, ◌≡◌, ◌≢◌, refl, Bool, true, false, Option, none, some, List, ◌==◌, if◌then◌else◌,
  nat_eq, arith,
}
use minepanel_backend.Common
use minepanel_backend.Http.{ok, err}
use minepanel_backend.Schema.{User, user, active}
use minepanel_backend.Effects.{World, ◌>>=◌}
use minepanel_backend.Auth.AccessToken.{ClaimValue, text}
use minepanel_backend.Auth.Libraries.{Libraries, json_array}
use minepanel_backend.Auth.Login.{consume_temp_password, wrong_login}
use minepanel_backend.Auth.Login.SecondFactor.{
  try_backup_codes, consume_backup_code, verify_and_consume_backup_code,
}
use minepanel_backend.Auth.Login.SingleUse.{consume_temp_password-once}
use minepanel_backend.Auth.Login.BackupCodes.{ParsesPrinted, verify_and_consume_backup_code-once}
use minepanel_backend.Scenarios.{quiet, libraries, week, account, no_memory, small_db}

-- a printed form: every character after an `x`, and a `y` after every text
abbrev print_onto : String → String → String
print_onto [] rest = "y" ∷ rest
print_onto (c ∷ t) rest = "x" ∷ c ∷ print_onto t rest

abbrev print : List String → String
print Common.[] = []
print (Common.◌∷◌ s ss) = print_onto s (print ss)

abbrev push : Char → List ClaimValue → List ClaimValue
push c (Common.◌∷◌ (text s) vs) = Common.◌∷◌ (text (c ∷ s)) vs
push c vs = vs

abbrev parse : String → List ClaimValue
parse [] = Common.[]
parse (m ∷ []) = Common.◌∷◌ (text []) Common.[]
parse (m ∷ c ∷ t) =
    if code m == b'y' then Common.◌∷◌ (text []) (parse (c ∷ t)) else push c (parse t)

parse-print_onto : (s rest : String) → parse (print_onto s rest) ≡ Common.◌∷◌ (text s) (parse rest)
parse-print_onto [] [] = refl
parse-print_onto [] (c ∷ t) = refl
parse-print_onto (c ∷ t) rest = rw (parse-print_onto t rest) refl

abbrev printing : Libraries
printing = record libraries {
  stringify = print;
  parse_json = λ json. some (json_array (parse json));
}

printing-ParsesPrinted : ParsesPrinted printing
printing-ParsesPrinted Common.[] = refl
printing-ParsesPrinted (Common.◌∷◌ s ss) =
    rw (parse-print_onto s (print ss), printing-ParsesPrinted ss) refl

abbrev ann_codes : String
ann_codes = print (Common.◌∷◌ "one" (Common.◌∷◌ "two" Common.[]))

abbrev ann : User
ann = record (account "ann" user active) {
  totp_backup_codes = some ann_codes;
  temp_password_hash = some "temporary";
  temp_password_expires_at = some 5000;
  must_change_password = true;
}

abbrev with_ann : World
with_ann = record {
  db = record small_db { users = Common.◌∷◌ ann Common.[] };
  memory = no_memory;
  tick = 0;
}

codes_run : Unit {0}
unfolding verify_and_consume_backup_code try_backup_codes consume_backup_code consume_temp_password
    ◌>>=◌
codes_run = tt

verify_and_consume_backup_code-once_example :
    (verify_and_consume_backup_code quiet printing week ann "one"
      (verify_and_consume_backup_code quiet printing week ann "two" with_ann).1).0
    ≡ ok false
unfolding codes_run
verify_and_consume_backup_code-once_example =
    verify_and_consume_backup_code-once quiet printing week ann "two" "one" ann_codes
      (Common.◌∷◌ "one" (Common.◌∷◌ "two" Common.[])) with_ann printing-ParsesPrinted refl refl
      (λ n db h. h) refl

consume_temp_password-once_example :
    (consume_temp_password quiet libraries week ann
      (consume_temp_password quiet libraries week ann with_ann).1).0
    ≡ err wrong_login
unfolding codes_run
consume_temp_password-once_example =
    consume_temp_password-once quiet libraries week ann "temporary" with_ann refl
      (record { distinct = λ n db h. h; consumed = λ n db h. h }) (tt, tt) refl
