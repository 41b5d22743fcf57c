-- ===== src/Auth/Login/SecondCodes.antt =====
-- src/auth/auth.service.ts: the codes that the second factor accepts.
use minepanel_backend.Common.{
  string_eq, bool_eq, ℕ, String, ◌≡◌, refl, sym, ap, ◌∙◌, Bool, true, false, Option, none, some,
  List, [], ◌∷◌, any, Bool-cases, true-false, arith, inl, inr, if◌then◌else◌,
}
use minepanel_backend.Http.{ok}
use minepanel_backend.Schema.{User}
use minepanel_backend.Effects.{Env, World, or_throw, clock, call}
use minepanel_backend.Effects.Inversion.{
  bind-elim, or_throw-ok, or_throw-world, clock-ok, call-ok, pure-ok,
}
use minepanel_backend.Users.Statements.{filled}
use minepanel_backend.Auth.Libraries.{Libraries}
use minepanel_backend.Auth.RefreshTokenTtl.{RefreshTokenTtl}
use minepanel_backend.Auth.Login.SecondFactor.{
  codes_of, is_six_digits, is_valid_totp, check_time_code, try_backup_codes,
  verify_and_consume_backup_code, verify_second_factor,
}

-- a code of the moment for the account's secret, or one of its stored backup codes
pub data Proves (lib : Libraries) (time : ℕ) (u : User) (stored_secret token : String)
    : Type 0 where
  time_code :
      (secret : String)
      → lib.decrypt stored_secret ≡ some secret
      → is_six_digits token ≡ true
      → lib.verify_totp time secret token ≡ true
      → Proves lib time u stored_secret token
  backup_code :
      (stored : String) (codes : List String)
      → filled u.totp_backup_codes ≡ some stored
      → codes_of (lib.parse_json stored) ≡ some codes
      → any (λ hashed. lib.compare_password token hashed) codes ≡ true
      → Proves lib time u stored_secret token

later_any : (a b : Bool) → b ≡ true → (if a then true else b) ≡ true
later_any a b h = ground arith

module _ (env : Env) (lib : Libraries) (ttl : RefreshTokenTtl) where
  check_time_code-true :
      (stored_secret token : String) (w : World)
      → (check_time_code env lib ttl stored_secret token w).0 ≡ ok true
      → (secret : String) × (lib.decrypt stored_secret ≡ some secret)
        × (lib.verify_totp (env.now w.tick) secret token ≡ true)
  unfolding check_time_code
  check_time_code-true stored_secret token w h =
      bind-elim (or_throw _ _) _ w true h λ secret decrypted h1.
        bind-elim (clock env) _ _ true h1 λ now time h2. (
          secret,
          or_throw-ok _ _ w secret decrypted,
          ap (λ t. lib.verify_totp t secret token)
                (ap (λ v. env.now v.tick) (sym (or_throw-world _ _ w)) ∙ clock-ok env _ now time)
              ∙ pure-ok _ _ true h2,
        )

  is_valid_totp-true :
      (u : User) (stored_secret token : String) (w : World)
      → (is_valid_totp env lib ttl stored_secret token w).0 ≡ ok true
      → Proves lib (env.now w.tick) u stored_secret token
  unfolding is_valid_totp
  is_valid_totp-true u stored_secret token w h = elim (Bool-cases (is_six_digits token)) [
    | inl six ↦
        let (secret, decrypted, verified) =
          check_time_code-true stored_secret token w (rw six at h) in
        time_code secret decrypted six verified
    | inr other ↦ absurd (true-false (sym (pure-ok false w true (rw other at h))))
  ]

  try_backup_codes-true :
      (u : User) (token stored : String) (codes left : List String) (w : World)
      → (try_backup_codes env lib ttl u token stored codes left w).0 ≡ ok true
      → any (λ hashed. lib.compare_password token hashed) left ≡ true
  unfolding try_backup_codes
  try_backup_codes-true u token stored codes [] w h =
      absurd (true-false (sym (pure-ok false w true h)))
  try_backup_codes-true u token stored codes (hashed ∷ left) w h =
      bind-elim (call env _) _ w true h λ matches called h1. elim (Bool-cases matches) [
        | inl hit ↦ rw (call-ok env _ w matches called, hit) refl
        | inr miss ↦
            later_any _ _ (try_backup_codes-true u token stored codes left _ (rw miss at h1))
      ]

  try_stored-true :
      (u : User) (stored_secret token : String) (time : ℕ) (w : World)
      → (verify_and_consume_backup_code env lib ttl u token w).0 ≡ ok true
      → Proves lib time u stored_secret token
  unfolding verify_and_consume_backup_code
  try_stored-true u stored_secret token time w h = go (filled u.totp_backup_codes) refl
    where
      go :
          (stored : Option String)
          → filled u.totp_backup_codes ≡ stored
          → Proves lib time u stored_secret token
      go none e = absurd (true-false (sym (pure-ok false w true (rw e at h))))
      go (some stored) e = within (codes_of (lib.parse_json stored)) refl
        where
          within :
              (codes : Option (List String))
              → codes_of (lib.parse_json stored) ≡ codes
              → Proves lib time u stored_secret token
          within none f = absurd (true-false (sym (pure-ok false w true (rw (e, f) at h))))
          within (some codes) f =
              backup_code stored codes e f
                (try_backup_codes-true u token stored codes codes w (rw (e, f) at h))

  pub verify_second_factor-true :
      (u : User) (stored_secret token : String) (w : World)
      → (verify_second_factor env lib ttl u stored_secret token w).0 ≡ ok true
      → Proves lib (env.now w.tick) u stored_secret token
  unfolding verify_second_factor
  verify_second_factor-true u stored_secret token w h =
      bind-elim (is_valid_totp env lib ttl stored_secret token) _ w true h λ valid checked h1.
        elim (Bool-cases valid) [
          | inl right ↦ is_valid_totp-true u stored_secret token w (checked ∙ ap ok right)
          | inr wrong ↦ try_stored-true u stored_secret token _ _ (rw wrong at h1)
        ]
