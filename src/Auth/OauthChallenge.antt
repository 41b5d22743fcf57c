-- ===== src/Auth/OauthChallenge.antt =====
-- src/auth/oauth-challenge.service.ts: challenges of a sign-in with Google, each for one use.
pub mod SingleUse
mod Tests
use minepanel_backend.Common.{
  ℕ, ◌+◌, ◌*◌, String, Bool, true, false, not, ◌&&◌, ◌||◌, List, [], ◌∷◌, ◌++◌, any, filter, ltb,
  ◌==◌, if◌then◌else◌, string_eq, nat_eq,
}
use minepanel_backend.Text.{all_chars, count_chars, is_alnum}
use minepanel_backend.Schema.{Db, OauthChallenge}
use minepanel_backend.Effects.{Env, M, pure, clock, fresh_id, statement, ◌>>=◌, ◌>>◌}

abbrev pub oauth_challenge_ttl_ms : ℕ
oauth_challenge_ttl_ms = 5 * 60 * 1000

abbrev pub challenge_bytes : ℕ
challenge_bytes = 32

abbrev is_raw_char : ℕ → Bool
is_raw_char c = is_alnum c || c == 95 || c == 45

-- `/^[A-Za-z0-9_-]{43}$/`
unfoldable pub is_raw_challenge : String → Bool
is_raw_challenge challenge = count_chars challenge == 43 && all_chars is_raw_char challenge

abbrev pub is_of : String → OauthChallenge → Bool
is_of hash r = r.provider == "google" && r.challenge_hash == hash

abbrev pub is_live : String → ℕ → OauthChallenge → Bool
is_live hash now r = is_of hash r && ltb now r.expires_at

-- the DELETE … RETURNING, with whether it returned a row
abbrev pub consume : String → ℕ → Db → Bool × Db
consume hash now db = (
  any (is_live hash now) db.oauth_challenges,
  record db { oauth_challenges = filter (λ r. not (is_live hash now r)) db.oauth_challenges },
)

abbrev new_challenge : String → String → ℕ → OauthChallenge
new_challenge id hash now = record {
  id = id;
  provider = "google";
  challenge_hash = hash;
  expires_at = now + oauth_challenge_ttl_ms;
  created_at = now;
}

-- `hash_challenge` is the hexadecimal SHA-256; the only provider is Google
module _ (env : Env) (hash_challenge : String → String) where
  unfoldable pub create_challenge : M String
  create_challenge = do
    now ← clock env
    let challenge = env.random_text now challenge_bytes
    id ← fresh_id env
    statement env (λ db. (
      tt,
      record db {
        oauth_challenges =
            db.oauth_challenges ++ new_challenge id (hash_challenge challenge) now ∷ [];
      },
    ))
    pure challenge

  abbrev consume_now : String → M Bool
  consume_now challenge = do now ← clock env; statement env (consume (hash_challenge challenge) now)

  unfoldable pub verify_and_consume : String → M Bool
  verify_and_consume challenge =
      if is_raw_challenge challenge then consume_now challenge else pure false
