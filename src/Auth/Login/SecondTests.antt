-- ===== src/Auth/Login/SecondTests.antt =====
-- The sign-in with a second factor on concrete data.
use minepanel_backend.Common.{◌≡◌, refl, true, false, none, some, [], ◌∷◌}
use minepanel_backend.Http.{ok, err, unauthorized}
use minepanel_backend.Schema.{User, user, active}
use minepanel_backend.Text.{classes}
use minepanel_backend.Effects.{World, ◌>>=◌}
use minepanel_backend.Users.Public.{to_public_user}
use minepanel_backend.Users.Service.{find_by_id}
use minepanel_backend.Auth.Libraries.{Libraries}
use minepanel_backend.Auth.TwoFactor.{assert_two_factor_not_locked, record_two_factor_failure}
use minepanel_backend.Auth.Sessions.{AuthTokens, issue_session, insert_issued}
use minepanel_backend.Auth.Login.SecondFactor.{
  is_six_digits, check_time_code, is_valid_totp, verify_second_factor, assert_not_locked,
  verify_and_consume_backup_code, refuse_code, accept_code, complete_two_factor_login,
  attempt_second_factor,
}
use minepanel_backend.Auth.Login.SecondGrants.{SecondGrants, complete_two_factor_login-SecondGrants}
use minepanel_backend.Scenarios.{quiet, libraries, week, account, no_memory, small_db}

abbrev with_codes : Libraries
with_codes = record libraries {
  decrypt = λ stored. some stored;
  verify_totp = λ now secret code. true;
}

abbrev ann : User
ann = record (account "ann" user active) { totp_enabled = true; totp_secret = some "sealed" }

abbrev with_ann : World
with_ann = record { db = record small_db { users = ann ∷ [] }; memory = no_memory; tick = 0 }

second_run : Unit {0}
unfolding classes attempt_second_factor find_by_id assert_two_factor_not_locked
    record_two_factor_failure issue_session insert_issued is_six_digits check_time_code
    is_valid_totp verify_second_factor assert_not_locked verify_and_consume_backup_code refuse_code
    accept_code complete_two_factor_login ◌>>=◌
second_run = tt

abbrev tokens : AuthTokens
tokens = record { user = to_public_user ann; access_token = "signed"; refresh_token = "signed" }

signs_in :
    (complete_two_factor_login quiet with_codes week "ann" "123456" false none with_ann).0
    ≡ ok tokens
unfolding second_run
signs_in = refl

refuses_five_digits :
    (complete_two_factor_login quiet with_codes week "ann" "12345" false none with_ann).0
    ≡ err (unauthorized "Invalid two-factor code")
unfolding second_run
refuses_five_digits = refl

complete_two_factor_login-SecondGrants_example :
    SecondGrants quiet with_codes week "ann" "123456" false none with_ann
unfolding second_run
complete_two_factor_login-SecondGrants_example =
    complete_two_factor_login-SecondGrants quiet with_codes week "ann" "123456" false none with_ann
      tokens refl
