-- ===== src/Auth/Login/Grants.antt =====
-- src/auth/auth.service.ts: what a sign-in that succeeds has found.
use minepanel_backend.Common.{
  none≢some, ℕ, suc, ◌≤◌, ◌<◌, String, ◌≡◌, refl, sym, ap, ◌∙◌, ◌⊎◌, inl, inr, Bool, true, false,
  Option, none, some, if◌then◌else◌, leb, leb→le, ltb, ltb→lt, string_eq, Bool-cases,
}
use minepanel_backend.Http.{ok}
use minepanel_backend.Schema.{User, UserStatus, active, pending, banned}
use minepanel_backend.Effects.{Env, World, lift, clock}
use minepanel_backend.Effects.Inversion.{
  bind-elim, call-ok, statement-ok, statement-tick, call-tick, clock-ok, KeepsDb, KeepsDb-bind,
  KeepsDb-pure, KeepsDb-lift, KeepsDb-remember, KeepsDb-call, KeepsDb-if, KeepsDb-clock,
}
use minepanel_backend.Effects.Trace.{
  Returns, Returns-bind, Returns-bind-Returns, Returns-pure, Returns-if, Returns-throw,
  Returns-lift, Returns-weaken,
}
use minepanel_backend.Users.Public.{to_public_user}
use minepanel_backend.Users.Statements.{filled-some, find_identified, filled}
use minepanel_backend.Users.Service.{find_by_identifier}
use minepanel_backend.Auth.Dto.{LoginUserDto}
use minepanel_backend.Auth.Libraries.{Libraries}
use minepanel_backend.Auth.LoginAbuse.{LoginAttemptContext}
use minepanel_backend.Auth.Password.{byte_length, max_password_bytes}
use minepanel_backend.Auth.RefreshTokenTtl.{RefreshTokenTtl}
use minepanel_backend.Auth.Sessions.{assert_login_allowed, issue_session}
use minepanel_backend.Auth.Login.{
  LoginResponse, signed_in, two_factor_challenge, dummy_password_hash, hash_or_dummy, primary_hash,
  is_later, live_temp_hash, temp_hash, known_account, check_login_abuse, refuse_login, challenge,
  start_session, challenge_forced, start_forced, login_forced, login_ordinary, login_matched,
  login_found, login_user,
}

-- the password is the account's: at `now`, the temporary one while it must be changed
pub data Knows (lib : Libraries) (password : String) (now : ℕ) (u : User) : Type 0 where
  primary :
      (hash : String)
      → u.must_change_password ≡ false
      → u.password_hash ≡ some hash
      → lib.compare_password password hash ≡ true
      → Knows lib password now u
  temporary :
      (hash : String) (until : ℕ)
      → u.must_change_password ≡ true
      → u.temp_password_hash ≡ some hash
      → u.temp_password_expires_at ≡ some until
      → now < until
      → lib.compare_password password hash ≡ true
      → Knows lib password now u

-- an account with a second factor gets a challenge, any other its session
abbrev pub Suits : User → LoginResponse → Type 0
Suits u (signed_in session) = (u.totp_enabled ≡ false) × (session.user ≡ to_public_user u)
Suits u (two_factor_challenge token) = u.totp_enabled ≡ true

pub record Grants (env : Env) (lib : Libraries) (dto : LoginUserDto) (w : World) (r : LoginResponse)
    : Type 0 where
  pub turn : ℕ
  pub account : User
  pub found : find_identified dto.identifier (env.interfere turn w.db) ≡ some account
  pub short : byte_length dto.password ≤ max_password_bytes
  pub is_active : account.status ≡ active
  pub knows : Knows lib dto.password (env.now (suc (suc turn))) account
  pub suits : Suits account r

module _ (env : Env) (lib : Libraries) (ttl : RefreshTokenTtl) where
  KeepsDb-check_login_abuse :
      (context : Option LoginAttemptContext) → KeepsDb (check_login_abuse env lib ttl context)
  unfolding check_login_abuse
  KeepsDb-check_login_abuse none = KeepsDb-pure tt
  KeepsDb-check_login_abuse (some context) = KeepsDb-bind _ _ (KeepsDb-clock env) λ now.
      KeepsDb-bind _ _ (KeepsDb-remember _) λ checked.
        KeepsDb-bind _ _ (KeepsDb-lift checked)
          λ delay. KeepsDb-if _ _ _ (KeepsDb-pure tt) (KeepsDb-call env _)

  Returns-refuse_login :
      (Q : LoginResponse → Type 0) (context : Option LoginAttemptContext)
      → Returns Q (refuse_login env lib ttl context)
  unfolding refuse_login
  Returns-refuse_login Q context = Returns-bind Q _ _ λ u. Returns-throw Q _

  Returns-challenge :
      (context : Option LoginAttemptContext) (u : User) (fingerprint : Option String)
      → u.totp_enabled ≡ true
      → Returns (Suits u) (challenge env lib ttl context u.id fingerprint)
  unfolding challenge
  Returns-challenge context u fingerprint second =
      Returns-bind (Suits u) _ _
        λ token. Returns-bind (Suits u) _ _ λ v. Returns-pure (Suits u) _ second

  Returns-issue_session :
      (u : User) (temporary_auth : Bool)
      → Returns (λ s. s.user ≡ to_public_user u) (issue_session env lib ttl u temporary_auth)
  unfolding issue_session
  Returns-issue_session u temporary_auth = Returns-bind _ _ _ λ seed.
      Returns-bind _ _ _ λ access_token. Returns-bind _ _ _ λ refresh_token. Returns-pure _ _ refl

  Returns-start_session :
      (context : Option LoginAttemptContext) (u : User) (temporary_auth : Bool)
      → u.totp_enabled ≡ false
      → Returns (Suits u) (start_session env lib ttl context u temporary_auth)
  unfolding start_session
  Returns-start_session context u temporary_auth no_second =
      Returns-bind-Returns (Suits u) (λ s. s.user ≡ to_public_user u) _ _
        (Returns-issue_session u temporary_auth)
        λ s shown. Returns-bind (Suits u) _ _ λ v. Returns-pure (Suits u) _ (no_second, shown)

  Returns-login_forced :
      (context : Option LoginAttemptContext) (u : User)
      → Returns (Suits u) (login_forced env lib ttl context u)
  unfolding login_forced challenge_forced start_forced
  Returns-login_forced context u =
      Returns-if (Suits u) u.totp_enabled _ _
        (λ second.
          Returns-bind (Suits u) _ _
            λ hash. Returns-challenge context u (some (lib.sha256 hash)) second)
        (λ no_second.
          Returns-bind (Suits u) _ _ λ v. Returns-start_session context u true no_second)

  Returns-login_ordinary :
      (context : Option LoginAttemptContext) (u : User)
      → Returns (Suits u) (login_ordinary env lib ttl context u)
  unfolding login_ordinary
  Returns-login_ordinary context u =
      Returns-if (Suits u) u.totp_enabled _ _ (Returns-challenge context u none)
        (Returns-start_session context u false)

  -- the answer, and which password was right
  abbrev Matched : User → Bool → Bool → LoginResponse → Type 0
  Matched u primary_matches temp_matches r =
      (((u.must_change_password ≡ false) × (primary_matches ≡ true))
        ⊎ ((u.must_change_password ≡ true) × (temp_matches ≡ true)))
      × Suits u r

  Returns-login_matched :
      (context : Option LoginAttemptContext) (u : User) (primary_matches temp_matches : Bool)
      → Returns
          (Matched u primary_matches temp_matches)
          (login_matched env lib ttl context u primary_matches temp_matches)
  unfolding login_matched
  Returns-login_matched context u primary_matches temp_matches =
      Returns-if _ u.must_change_password _ _
        (λ forced.
          Returns-if _ temp_matches _ _
            (λ hit.
              Returns-weaken _ (Returns-login_forced context u) (λ r s. (inr (forced, hit), s)))
            (λ miss. Returns-refuse_login _ context))
        (λ free.
          Returns-if _ primary_matches _ _
            (λ hit.
              Returns-weaken _ (Returns-login_ordinary context u) (λ r s. (inl (free, hit), s)))
            (λ miss. Returns-refuse_login _ context))

  Returns-assert_login_allowed :
      (status : UserStatus) → Returns (λ x. status ≡ active) (lift (assert_login_allowed status))
  Returns-assert_login_allowed active = Returns-lift _ _ λ a p. refl
  Returns-assert_login_allowed pending = Returns-lift _ _ λ a p. absurd (cc)
  Returns-assert_login_allowed banned = Returns-lift _ _ λ a p. absurd (cc)

  abbrev Found : Option User → Bool → Bool → LoginResponse → Type 0
  Found known primary_matches temp_matches r =
      (u : User) × (known ≡ some u) × (u.status ≡ active) × Matched u primary_matches temp_matches r

  Returns-login_found :
      (context : Option LoginAttemptContext) (primary_matches temp_matches : Bool)
      (known : Option User)
      → Returns
          (Found known primary_matches temp_matches)
          (login_found env lib ttl context primary_matches temp_matches known)
  Returns-login_found context primary_matches temp_matches none = Returns-refuse_login _ context
  Returns-login_found context primary_matches temp_matches (some u) =
      Returns-bind-Returns _ (λ x. u.status ≡ active) _ _ (Returns-assert_login_allowed u.status)
        λ x is_active.
          Returns-weaken _ (Returns-login_matched context u primary_matches temp_matches)
            (λ r s. (u, refl, is_active, s))

  known_account-some :
      (password : String) (found : Option User) (u : User)
      → known_account password found ≡ some u
      → (byte_length password ≤ max_password_bytes) × (found ≡ some u)
  known_account-some password found u h =
      elim (Bool-cases (leb (byte_length password) max_password_bytes)) [
        | inl short ↦ (leb→le _ _ short, sym (ap (λ b. if b then found else none) short) ∙ h)
        | inr long ↦ absurd (none≢some (sym (ap (λ b. if b then found else none) long) ∙ h))
      ]

  hash_or_dummy-some :
      (password : String) (hash : Option String)
      → lib.compare_password password dummy_password_hash ≡ false
      → lib.compare_password password (hash_or_dummy hash) ≡ true
      → (stored : String) × (hash ≡ some stored) × (lib.compare_password password stored ≡ true)
  hash_or_dummy-some password none no_dummy h = cc
  hash_or_dummy-some password (some stored) no_dummy h = (stored, refl, h)

  live-some :
      (now : ℕ) (expires : Option ℕ) (stored : Option String) (hash : String)
      → (if is_later now expires then filled stored else none) ≡ some hash
      → (until : ℕ) × (expires ≡ some until) × (now < until) × (stored ≡ some hash)
  live-some now none stored hash h = absurd (cc)
  live-some now (some until) stored hash h = elim (Bool-cases (ltb now until)) [
    | inl early ↦ (
      until,
      refl,
      ltb→lt _ _ early,
      filled-some stored hash (sym (ap (λ b. if b then filled stored else none) early) ∙ h),
    )
    | inr late ↦ absurd (none≢some (sym (ap (λ b. if b then filled stored else none) late) ∙ h))
  ]

  live_temp_hash-some :
      (now : ℕ) (u : User) (hash : String)
      → live_temp_hash now u ≡ some hash
      → (until : ℕ) × (u.temp_password_expires_at ≡ some until)
        × (now < until)
        × (u.temp_password_hash ≡ some hash)
  live_temp_hash-some now u hash h =
      live-some now u.temp_password_expires_at u.temp_password_hash hash h

  Knows-primary :
      (password : String) (now : ℕ) (u : User)
      → lib.compare_password password dummy_password_hash ≡ false
      → u.must_change_password ≡ false
      → lib.compare_password password (primary_hash (some u)) ≡ true
      → Knows lib password now u
  Knows-primary password now u no_dummy free h =
      let (hash, stored, hit) = hash_or_dummy-some password u.password_hash no_dummy h in
      primary hash free stored hit

  Knows-temporary :
      (password : String) (now : ℕ) (u : User)
      → lib.compare_password password dummy_password_hash ≡ false
      → u.must_change_password ≡ true
      → lib.compare_password password (temp_hash now (some u)) ≡ true
      → Knows lib password now u
  Knows-temporary password now u no_dummy forced h =
      let (hash, live, hit) = hash_or_dummy-some password (live_temp_hash now u) no_dummy h in
      let (until, expires, early, stored) = live_temp_hash-some now u hash live in
      temporary hash until forced stored expires early hit

  Grants-Found :
      (dto : LoginUserDto) (w : World) (turn : ℕ) (found : Option User)
      (primary_matches temp_matches : Bool) (r : LoginResponse)
      → lib.compare_password dto.password dummy_password_hash ≡ false
      → found ≡ find_identified dto.identifier (env.interfere turn w.db)
      → lib.compare_password dto.password (primary_hash found) ≡ primary_matches
      → lib.compare_password dto.password (temp_hash (env.now (suc (suc turn))) found)
        ≡ temp_matches
      → Found (known_account dto.password found) primary_matches temp_matches r
      → Grants env lib dto w r
  Grants-Found dto w turn found primary_matches temp_matches r no_dummy read first second
        (u, known, is_active, (which, suits)) =
      let (short, is_found) = known_account-some dto.password found u known in
      record {
        turn = turn;
        account = u;
        found = sym read ∙ is_found;
        short = short;
        is_active = is_active;
        knows = elim which [
          | inl (free, hit) ↦ Knows-primary dto.password _ u no_dummy free (
              ap (λ o. lib.compare_password dto.password (primary_hash o)) (sym is_found)
              ∙ first
              ∙ hit)
          | inr (forced, hit) ↦ Knows-temporary dto.password _ u no_dummy forced (
              ap (λ o. lib.compare_password dto.password (temp_hash (env.now (suc (suc turn))) o))
                (sym is_found)
              ∙ second
              ∙ hit)
        ];
        suits = suits;
      }

  -- Where the hash that stands in for a missing one matches no password: a sign-in that succeeds
  -- found an active account under the identifier, with a password within the limit of bytes that
  -- is the account's, or, while that must be changed, the temporary one, not yet expired when it
  -- was compared. An account with a second factor was answered with a challenge only, any other
  -- with its own session.
  pub login_user-Grants :
      (dto : LoginUserDto) (context : Option LoginAttemptContext) (w : World) (r : LoginResponse)
      → lib.compare_password dto.password dummy_password_hash ≡ false
      → (login_user env lib ttl dto context w).0 ≡ ok r
      → Grants env lib dto w r
  unfolding login_user find_by_identifier
  login_user-Grants dto context w r no_dummy h =
      bind-elim (check_login_abuse env lib ttl context) _ w r h λ a allowed h1.
        bind-elim (find_by_identifier env lib dto.identifier) _ _ r h1 λ found read h2.
          bind-elim _ _ _ r h2 λ primary_matches first h3.
            bind-elim (clock env) _ _ r h3 λ now time h4.
              bind-elim _ _ _ r h4 λ temp_matches second h5.
                Grants-Found dto w (check_login_abuse env lib ttl context w).1.tick found
                  primary_matches temp_matches r no_dummy
                  (sym (statement-ok env _ _ found read)
                    ∙ ap
                        (λ db.
                          find_identified dto.identifier
                            (env.interfere (check_login_abuse env lib ttl context w).1.tick db))
                        ((KeepsDb-check_login_abuse context).at w))
                  (call-ok env _ _ primary_matches first)
                  (ap (λ t. lib.compare_password dto.password (temp_hash t found))
                      (sym (ap env.now (call-tick env _ _ ∙ ap suc (statement-tick env _ _)))
                        ∙ clock-ok env _ now time)
                    ∙ call-ok env _ _ temp_matches second)
                  ((Returns-login_found context primary_matches temp_matches _).at _ r h5)
