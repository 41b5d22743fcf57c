-- ===== src/Users/Tests.antt =====
-- A change of password on concrete data.
use minepanel_backend.Common.{◌≡◌, refl, some, false, [], ◌∷◌}
use minepanel_backend.Schema.{User, user, active}
use minepanel_backend.Effects.{World, ◌>>=◌}
use minepanel_backend.Users.Public.{to_public_user}
use minepanel_backend.Users.Service.{find_by_id, change_ordinary, update_password}
use minepanel_backend.Users.PasswordChange.{Changed, update_password-Changed}
use minepanel_backend.Auth.Dto.{UpdatePasswordDto}
use minepanel_backend.Auth.Password.{byte_length}
use minepanel_backend.Scenarios.{quiet, libraries, account, session, no_memory, small_db}

abbrev eve : User
eve = record (account "eve" user active) { password_hash = some "old" }

abbrev with_eve : World
with_eve = record {
  db = record small_db {
    users = eve ∷ [];
    refresh_tokens = session "s1" "eve" 5000 ∷ session "s2" "eve" 5000 ∷ [];
  };
  memory = no_memory;
  tick = 0;
}

abbrev old_to_new : UpdatePasswordDto
old_to_new = record { old_password = "old"; new_password = "new" }

password_run : Unit {0}
unfolding find_by_id change_ordinary update_password byte_length ◌>>=◌
password_run = tt

abbrev after : World
after = (update_password quiet libraries "eve" old_to_new (some "s1") false with_eve).1

keeps_own : after.db.refresh_tokens ≡ session "s1" "eve" 5000 ∷ []
unfolding password_run
keeps_own = refl

update_password-Changed_example :
    Changed quiet libraries "eve" old_to_new (some "s1") false with_eve after
unfolding password_run
update_password-Changed_example =
    update_password-Changed quiet libraries "eve" old_to_new (some "s1") false with_eve
      (to_public_user (record eve { updated_at = 1000 })) refl
