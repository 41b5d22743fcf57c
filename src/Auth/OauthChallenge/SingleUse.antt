-- ===== src/Auth/OauthChallenge/SingleUse.antt =====
-- src/auth/oauth-challenge.service.ts: a challenge is used once.
use minepanel_backend.Common.{
  ℕ, suc, ◌≤◌, String, ◌≡◌, refl, true, false, not, List, [], ◌∷◌, any, filter, arith, Bool-cases,
  inl, inr, subst, sym,
}
use minepanel_backend.Http.{ok}
use minepanel_backend.Schema.{Db, OauthChallenge}
use minepanel_backend.Effects.{Env, World, ◌>>=◌}
use minepanel_backend.Auth.OauthChallenge.{is_raw_challenge, is_live, verify_and_consume}

-- at no time from `now` on does a row of the hash count
abbrev pub IsSpent : String → ℕ → List OauthChallenge → Type 0
IsSpent hash now rows = (t : ℕ) → now ≤ t → any (is_live hash t) rows ≡ false

IsSpent-filter :
    (hash : String) (now : ℕ) (rows : List OauthChallenge)
    → IsSpent hash now (filter (λ r. not (is_live hash now r)) rows)
IsSpent-filter hash now [] t le = refl
IsSpent-filter hash now (r ∷ rs) t le = ground (arith, IsSpent-filter hash now rs t le)

-- other requests create no challenge with this hash
abbrev pub NoRecreation : Env → String → Type 0
NoRecreation env hash =
    (n t : ℕ) (db : Db)
    → IsSpent hash t db.oauth_challenges
    → IsSpent hash t (env.interfere n db).oauth_challenges

module _ (env : Env) (hash_challenge : String → String) (challenge : String) where
  refuses-spent :
      (w : World)
      → IsSpent
          (hash_challenge challenge)
          (env.now w.tick)
          (env.interfere w.tick w.db).oauth_challenges
      → (verify_and_consume env hash_challenge challenge w).0 ≡ ok false
  unfolding verify_and_consume ◌>>=◌
  refuses-spent w h = elim (Bool-cases (is_raw_challenge challenge)) [
    | inl raw ↦ rw (raw, h (env.now w.tick) (omega arith))
    | inr malformed ↦ rw (malformed)
  ]

  spends :
      (w : World)
      → is_raw_challenge challenge ≡ true
      → IsSpent
          (hash_challenge challenge)
          (env.now w.tick)
          (verify_and_consume env hash_challenge challenge w).1.db.oauth_challenges
  unfolding verify_and_consume ◌>>=◌
  spends w raw = rw (raw) (
      IsSpent-filter (hash_challenge challenge) (env.now w.tick)
        (env.interfere w.tick w.db).oauth_challenges)

  next_tick :
      (w : World)
      → is_raw_challenge challenge ≡ true
      → (verify_and_consume env hash_challenge challenge w).1.tick ≡ suc w.tick
  unfolding verify_and_consume ◌>>=◌
  next_tick w raw = rw (raw)

  refuses-malformed :
      (w : World)
      → is_raw_challenge challenge ≡ false
      → (verify_and_consume env hash_challenge challenge w).0 ≡ ok false
  unfolding verify_and_consume ◌>>=◌
  refuses-malformed w malformed = rw (malformed)

-- A challenge is used once: after an attempt with it every later attempt is refused, whatever other
-- requests do in between, as long as the clock does not go back and nobody creates a challenge with
-- the same hash.
pub verify_and_consume-once :
    (env : Env) (hash_challenge : String → String) (challenge : String) (w : World)
    → ((n : ℕ) → env.now n ≤ env.now (suc n))
    → NoRecreation env (hash_challenge challenge)
    → (verify_and_consume env hash_challenge challenge
        (verify_and_consume env hash_challenge challenge w).1).0
      ≡ ok false
verify_and_consume-once env hash_challenge challenge w forward fresh =
    elim (Bool-cases (is_raw_challenge challenge)) [
      | inl raw ↦
          let after = (verify_and_consume env hash_challenge challenge w).1 in
          let spent : IsSpent (hash_challenge challenge) (env.now (suc w.tick))
              after.db.oauth_challenges =
            (λ t le.
              spends env hash_challenge challenge w raw t (omega (arith, le, forward w.tick))) in
          refuses-spent env hash_challenge challenge after (
            fresh after.tick (env.now after.tick) after.db (
              subst (λ n. IsSpent (hash_challenge challenge) (env.now n) after.db.oauth_challenges)
                (sym (next_tick env hash_challenge challenge w raw)) spent))
      | inr malformed ↦ refuses-malformed env hash_challenge challenge _ malformed
    ]
