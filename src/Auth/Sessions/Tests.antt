-- ===== src/Auth/Sessions/Tests.antt =====
-- The rotation of a refresh token on concrete data.
use minepanel_backend.Common.{◌≡◌, refl}
use minepanel_backend.Http.{Exception, ok, err}
use minepanel_backend.Effects.{◌>>=◌}
use minepanel_backend.Auth.RefreshToken.{valid_refresh_claims}
use minepanel_backend.Auth.Sessions.{
  RotatedTokens, refresh_tokens, load_stored, load_owner, rotate, insert_issued,
}
use minepanel_backend.Auth.Sessions.Admits.{Admits, refresh_tokens-Admits}
use minepanel_backend.Auth.Sessions.SingleUse.{refresh_tokens-once}
use minepanel_backend.Scenarios.{quiet, libraries, week, start_world}

sessions_run : Unit {0}
unfolding valid_refresh_claims refresh_tokens load_stored load_owner rotate insert_issued ◌>>=◌
sessions_run = tt

abbrev signed_twice : RotatedTokens
signed_twice = record { access_token = "signed"; refresh_token = "signed" }

rotates : (refresh_tokens quiet libraries week "raw" start_world).0 ≡ ok signed_twice
unfolding sessions_run
rotates = refl

refresh_tokens-once_example :
    (e : Exception) × ((refresh_tokens quiet libraries week "raw"
        (refresh_tokens quiet libraries week "raw" start_world).1).0
      ≡ err e)
unfolding sessions_run
refresh_tokens-once_example =
    refresh_tokens-once quiet libraries week "raw" "t1" "t1" start_world signed_twice
      (λ n claims e. cc) (record { only = λ n id db h. h; unused = λ n db h. h; fresh = λ n e. cc })
      ((λ e. refl), ((λ e. cc), tt)) refl

refresh_tokens-Admits_example : Admits quiet libraries "raw" start_world
unfolding sessions_run
refresh_tokens-Admits_example =
    refresh_tokens-Admits quiet libraries week "raw" start_world signed_twice refl
