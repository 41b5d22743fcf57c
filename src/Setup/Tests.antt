-- ===== src/Setup/Tests.antt =====
-- The first administrator on concrete data.
use minepanel_backend.Common.{String, ◌≡◌, refl, some, none, true, any, ◌==◌, string_eq}
use minepanel_backend.Http.{ok, err, unauthorized, conflict}
use minepanel_backend.Schema.{Db}
use minepanel_backend.Effects.{Env, World, ◌>>=◌}
use minepanel_backend.Effects.Triples.{Triple}
use minepanel_backend.Auth.Dto.{CreateUserDto}
use minepanel_backend.Auth.Password.{byte_length}
use minepanel_backend.Setup.{create_admin, init_admin_register}
use minepanel_backend.Setup.Once.{
  IsComplete, Holds, Never, Refused, Keeps, init_admin_register-Refused,
}
use minepanel_backend.Scenarios.{small_db, quiet, start_world}

setup_run : Unit {0}
unfolding byte_length create_admin init_admin_register ◌>>=◌
setup_run = tt

abbrev same_text : String → String
same_text s = s

abbrev unset : Env
unset = record quiet { config = λ key. none; uuid = λ n. "first" }

abbrev zoe : CreateUserDto
zoe = record { email = "zoe@example.org"; username = "zoe"; password = "secret" }

abbrev after : World
after = (init_admin_register unset same_text (some "token") zoe (some "token") start_world).1

creates :
    (init_admin_register unset same_text (some "token") zoe (some "token") start_world).0 ≡ ok true
unfolding setup_run
creates = refl

added : any (λ u. u.username == "zoe") after.db.users ≡ true
unfolding setup_run
added = refl

completes : IsComplete after.db
unfolding setup_run
completes = refl

refuses_token :
    (init_admin_register unset same_text (some "token") zoe (some "guess") start_world).0
    ≡ err (unauthorized "SetupTokenInvalid")
unfolding setup_run
refuses_token = refl

refuses_again :
    (init_admin_register unset same_text (some "token") zoe (some "token") after).0
    ≡ err (conflict "SetupAlreadyComplete")
unfolding setup_run
refuses_again = refl

-- the accounts are those of the start
abbrev SameUsers : Db → Type 0
SameUsers db = db.users ≡ small_db.users

unset-Keeps : Keeps unset SameUsers
unset-Keeps = record { free = λ n db h. h; locked = λ n db h. h }

init_admin_register-Refused_example :
    Triple
      (Holds SameUsers)
      (init_admin_register unset same_text (some "token") zoe (some "token"))
      Never
      (Refused SameUsers)
init_admin_register-Refused_example =
    init_admin_register-Refused unset same_text SameUsers unset-Keeps (some "token") zoe
      (some "token")
