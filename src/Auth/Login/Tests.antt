-- ===== src/Auth/Login/Tests.antt =====
-- A sign-in on concrete data.
use minepanel_backend.Common.{refl, none, some, [], ◌∷◌}
use minepanel_backend.Schema.{User, user, active}
use minepanel_backend.Effects.{World, ◌>>=◌}
use minepanel_backend.Users.Public.{to_public_user}
use minepanel_backend.Users.Service.{find_by_identifier}
use minepanel_backend.Auth.Dto.{LoginUserDto}
use minepanel_backend.Auth.Password.{byte_length}
use minepanel_backend.Auth.Sessions.{issue_session, insert_issued}
use minepanel_backend.Auth.Login.{
  LoginResponse, signed_in, login_user, login_matched, login_ordinary, start_session,
  check_login_abuse, record_login_success,
}
use minepanel_backend.Auth.Login.Grants.{Grants, login_user-Grants}
use minepanel_backend.Scenarios.{quiet, libraries, week, account, no_memory, small_db}

abbrev eve : User
eve = record (account "eve" user active) { password_hash = some "secret" }

abbrev with_eve : World
with_eve = record { db = record small_db { users = eve ∷ [] }; memory = no_memory; tick = 0 }

abbrev of_eve : LoginUserDto
of_eve = record { identifier = "eve"; password = "secret" }

abbrev session_of_eve : LoginResponse
session_of_eve =
    signed_in
      (record { user = to_public_user eve; access_token = "signed"; refresh_token = "signed" })

login_run : Unit {0}
unfolding find_by_identifier byte_length issue_session insert_issued login_user login_matched
    login_ordinary start_session check_login_abuse record_login_success ◌>>=◌
login_run = tt

login_user-Grants_example : Grants quiet libraries of_eve with_eve session_of_eve
unfolding login_run
login_user-Grants_example =
    login_user-Grants quiet libraries week of_eve none with_eve session_of_eve refl refl
