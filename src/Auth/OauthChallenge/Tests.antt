-- ===== src/Auth/OauthChallenge/Tests.antt =====
-- The challenges on concrete data.
use minepanel_backend.Common.{String, ◌≡◌, refl, arith, true, false, [], ◌∷◌}
use minepanel_backend.Http.{ok}
use minepanel_backend.Text.{classes}
use minepanel_backend.Effects.{World, ◌>>=◌}
use minepanel_backend.Auth.OauthChallenge.{is_raw_challenge, create_challenge, verify_and_consume}
use minepanel_backend.Auth.OauthChallenge.SingleUse.{verify_and_consume-once}
use minepanel_backend.Scenarios.{no_memory, quiet, small_db}

challenge_run : Unit {0}
unfolding classes is_raw_challenge create_challenge verify_and_consume ◌>>=◌
challenge_run = tt

abbrev plain_hash : String → String
plain_hash s = s

abbrev challenge : String
challenge = "abcdefghijklmnopqrstuvwxyzABCDEFGHIJKLM-_01"

abbrev issued : World
issued = record {
  db = record small_db {
    oauth_challenges =
        record {
          id = "o1";
          provider = "google";
          challenge_hash = challenge;
          expires_at = 100000000000000;
          created_at = 0;
        }
        ∷ [];
  };
  memory = no_memory;
  tick = 0;
}

accepts_first : (verify_and_consume quiet plain_hash challenge issued).0 ≡ ok true
unfolding challenge_run
accepts_first = refl

verify_and_consume-once_example :
    (verify_and_consume quiet plain_hash challenge
      (verify_and_consume quiet plain_hash challenge issued).1).0
    ≡ ok false
verify_and_consume-once_example =
    verify_and_consume-once quiet plain_hash challenge issued (λ n. omega arith) (λ n t db h. h)
