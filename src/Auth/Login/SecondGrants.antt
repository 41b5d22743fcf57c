-- ===== src/Auth/Login/SecondGrants.antt =====
-- src/auth/auth.service.ts: what a sign-in with the second factor that succeeds has checked.
use minepanel_backend.Common.{
  ◌<◌, ==-true, and_true, string_eq, none≢some, bool_eq, subst, ℕ, suc, String, ◌≡◌, refl, sym, ap,
  ◌∙◌, Bool, true, false, not, ◌&&◌, Option, none, some, Bool-cases, some-injective, arith, inl,
  inr, if◌then◌else◌,
}
use minepanel_backend.Http.{ok}
use minepanel_backend.Schema.{User, active}
use minepanel_backend.Effects.{Env, World, lift, or_throw, throw_if, clock, ◌>>=◌}
use minepanel_backend.Effects.Inversion.{
  bind-elim, lift-world, lift-ok, or_throw-ok, or_throw-world, throw_if-ok, throw_if-world,
  clock-ok, statement-ok,
}
use minepanel_backend.Admin.Statements.{find_user}
use minepanel_backend.Users.Statements.{filled, filled-some}
use minepanel_backend.Users.Service.{find_by_id}
use minepanel_backend.Auth.Libraries.{Libraries}
use minepanel_backend.Auth.RefreshTokenTtl.{RefreshTokenTtl}
use minepanel_backend.Auth.Sessions.{AuthTokens, assert_login_allowed}
use minepanel_backend.Auth.Sessions.Admits.{next, bool_same, assert_login_allowed-ok}
use minepanel_backend.Auth.TwoFactor.{assert_two_factor_not_locked}
use minepanel_backend.Auth.Login.{is_later}
use minepanel_backend.Auth.Login.SecondFactor.{
  has_fingerprint, with_secret, with_second_factor, verify_second_factor, is_bound,
  assert_not_locked, refuse_code, accept_code, complete_two_factor_login, attempt_second_factor,
}
use minepanel_backend.Auth.Login.SecondCodes.{Proves, verify_second_factor-true}

-- the temporary password has not expired, and its hash is the one that the first step compared
pub record Bound (lib : Libraries) (time : ℕ) (u : User) (fingerprint : Option String)
    : Type 0 where
  pub expires : ℕ
  pub has_expiry : u.temp_password_expires_at ≡ some expires
  pub is_current : time < expires
  pub hash : String
  pub has_hash : u.temp_password_hash ≡ some hash
  pub is_same : fingerprint ≡ some (lib.sha256 hash)

-- What a sign-in has found that began in the world `w`.
pub record SecondGrants (env : Env) (lib : Libraries) (ttl : RefreshTokenTtl)
    (user_id token : String) (temporary_auth : Bool) (fingerprint : Option String) (w : World)
    : Type 0 where
  pub account : User
  pub is_account : find_user user_id (next env w).db ≡ some account
  pub is_enabled : account.totp_enabled ≡ true
  pub stored_secret : String
  pub is_stored : filled account.totp_secret ≡ some stored_secret
  pub is_active : account.status ≡ active
  pub is_unlocked :
      (assert_two_factor_not_locked account.id
        (env.now (suc w.tick))
        (next env w).memory.two_factor_failures).0
      ≡ ok tt
  pub same_kind : account.must_change_password ≡ temporary_auth
  pub bound : temporary_auth ≡ true → Bound lib (env.now (suc w.tick)) account fingerprint
  pub proves : Proves lib (env.now (suc w.tick)) account stored_secret token

unnegated : (b : Bool) → not b ≡ false → b ≡ true
unnegated b h = ground arith

implied : (a b : Bool) → (a && not b) ≡ false → a ≡ true → b ≡ true
implied a b h e = ground arith

with_secret-some :
    (r u : User) (stored : Option String) (secret : String)
    → with_secret r stored ≡ some (u, secret)
    → (r ≡ u) × (stored ≡ some secret)
with_secret-some r u none secret h = cc
with_secret-some r u (some s) secret h =
    let same : (r, s) ≡ (u, secret) = some-injective h in
    (ap (λ x. x.0) same, ap (λ x. some x.1) same)

with_second_factor-some :
    (found : Option User) (u : User) (secret : String)
    → with_second_factor found ≡ some (u, secret)
    → (found ≡ some u) × (u.totp_enabled ≡ true) × (filled u.totp_secret ≡ some secret)
with_second_factor-some none u secret h = cc
with_second_factor-some (some r) u secret h = elim (Bool-cases r.totp_enabled) [
  | inl enabled ↦
      let (same, stored) =
        with_secret-some r u (filled r.totp_secret) secret
          (sym (ap (λ b. if b then with_secret r (filled r.totp_secret) else none) enabled) ∙ h) in
      (
        ap some same,
        ap (λ x. x.totp_enabled) (sym same) ∙ enabled,
        ap (λ x. filled x.totp_secret) (sym same) ∙ stored,
      )
  | inr disabled ↦ absurd (
      none≢some
        (sym (ap (λ b. if b then with_secret r (filled r.totp_secret) else none) disabled) ∙ h))
]

module _ (env : Env) (lib : Libraries) (ttl : RefreshTokenTtl) where
  has_fingerprint-true :
      (fingerprint hash : Option String)
      → has_fingerprint env lib ttl fingerprint hash ≡ true
      → (h : String) × (hash ≡ some h) × (fingerprint ≡ some (lib.sha256 h))
  has_fingerprint-true none hash e = cc
  has_fingerprint-true (some f) none e = cc
  has_fingerprint-true (some f) (some h) e = (h, refl, ap some (sym (==-true e)))

  is_later-true :
      (now : ℕ) (expires : Option ℕ)
      → is_later now expires ≡ true
      → (t : ℕ) × (expires ≡ some t) × (now < t)
  is_later-true now none e = cc
  is_later-true now (some t) e = (t, refl, ground arith)

  is_bound-Bound :
      (now : ℕ) (u : User) (fingerprint : Option String)
      → is_bound env lib ttl now u fingerprint ≡ true
      → Bound lib now u fingerprint
  is_bound-Bound now u fingerprint e =
      let (later, same) =
        and_true _ (has_fingerprint env lib ttl (filled fingerprint) (filled u.temp_password_hash))
          e in
      let (expires, has_expiry, is_current) = is_later-true now u.temp_password_expires_at later in
      let (hash, has_hash, is_same) = has_fingerprint-true _ _ same in
      record {
        expires = expires;
        has_expiry = has_expiry;
        is_current = is_current;
        hash = hash;
        has_hash = filled-some _ _ has_hash;
        is_same = filled-some _ _ is_same;
      }

  -- whether the lock let through, and the clock as it was
  assert_not_locked-ok :
      (user_id : String) (w : World) (a : Unit {0})
      → (assert_not_locked env lib ttl user_id w).0 ≡ ok a
      → ((assert_two_factor_not_locked user_id (env.now w.tick) w.memory.two_factor_failures).0
          ≡ ok a)
        × ((assert_not_locked env lib ttl user_id w).1.tick ≡ w.tick)
  unfolding assert_not_locked ◌>>=◌
  assert_not_locked-ok user_id w a h = (h, refl)

  refuse_code-throws :
      (user_id : String) (w : World) (tokens : AuthTokens)
      → (refuse_code env lib ttl user_id w).0 ≡ ok tokens
      → ⊥
  unfolding refuse_code ◌>>=◌
  refuse_code-throws user_id w tokens h = cc

  accepted :
      (u : User) (temporary_auth valid : Bool) (w : World) (tokens : AuthTokens)
      → ((if valid then accept_code env lib ttl u temporary_auth else refuse_code env lib ttl u.id)
          w).0
        ≡ ok tokens
      → valid ≡ true
  accepted u temporary_auth true w tokens h = refl
  accepted u temporary_auth false w tokens h = absurd (refuse_code-throws u.id w tokens h)

  find_by_id-world : (id : String) (w : World) → (find_by_id env lib id w).1 ≡ next env w
  unfolding find_by_id ◌>>=◌
  find_by_id-world id w = refl

  find_by_id-ok :
      (id : String) (w : World) (found : Option User)
      → (find_by_id env lib id w).0 ≡ ok found
      → find_user id (next env w).db ≡ found
  unfolding find_by_id
  find_by_id-ok id w found h = statement-ok env _ w found h

  clock-tick : (w : World) → (clock env w).1.tick ≡ w.tick
  unfolding ◌>>=◌
  clock-tick w = refl

  record Attempted (u : User) (stored_secret token : String) (temporary_auth : Bool)
      (fingerprint : Option String) (n : ℕ) : Type 0 where
    same_kind : u.must_change_password ≡ temporary_auth
    bound : temporary_auth ≡ true → Bound lib (env.now n) u fingerprint
    proves : Proves lib (env.now n) u stored_secret token

  attempt_second_factor-Attempted :
      (u : User) (stored_secret token : String) (temporary_auth : Bool)
      (fingerprint : Option String) (v : World) (tokens : AuthTokens)
      → (attempt_second_factor env lib ttl u stored_secret token temporary_auth fingerprint v).0
        ≡ ok tokens
      → Attempted u stored_secret token temporary_auth fingerprint v.tick
  unfolding attempt_second_factor
  attempt_second_factor-Attempted u stored_secret token temporary_auth fingerprint v tokens h =
      bind-elim (throw_if _ _) _ v tokens h λ c same h1.
        bind-elim (clock env) _ _ tokens h1 λ now time h2.
          bind-elim (throw_if _ _) _ _ tokens h2 λ d fits h3.
            bind-elim (verify_second_factor env lib ttl u stored_secret token) _ _ tokens h3
              λ valid verified h4.
                let before = ap (λ x. x.tick) (throw_if-world _ _ v c same) in
                let after =
                  ap (λ x. x.tick) (throw_if-world _ _ _ d fits) ∙ clock-tick _ ∙ before in
                let now_is : now ≡ env.now v.tick =
                  sym (clock-ok env _ now time) ∙ ap env.now before in
                record {
                  same_kind = bool_same _ _ (unnegated _ (throw_if-ok _ _ _ c same));
                  bound = λ t.
                      subst (λ n. Bound lib n u fingerprint) now_is
                        (is_bound-Bound now u fingerprint
                          (implied temporary_auth _ (throw_if-ok _ _ _ d fits) t));
                  proves =
                      subst (λ n. Proves lib n u stored_secret token) (ap env.now after)
                        (verify_second_factor-true env lib ttl u stored_secret token _
                          (verified ∙ ap ok (accepted u temporary_auth valid _ tokens h4)));
                }

  -- A sign-in with the second factor that succeeds found an active account that has one and was not
  -- locked, that has to change its password exactly if the first step took a temporary one, which
  -- has then not expired and whose hash still has the fingerprint of that step; and the code was
  -- one of the moment or matched a stored backup code.
  pub complete_two_factor_login-SecondGrants :
      (user_id token : String) (temporary_auth : Bool) (fingerprint : Option String) (w : World)
      (tokens : AuthTokens)
      → (complete_two_factor_login env lib ttl user_id token temporary_auth fingerprint w).0
        ≡ ok tokens
      → SecondGrants env lib ttl user_id token temporary_auth fingerprint w
  unfolding complete_two_factor_login find_by_id
  complete_two_factor_login-SecondGrants user_id token temporary_auth fingerprint w tokens h =
      bind-elim (find_by_id env lib user_id) _ w tokens h λ found read h1.
        bind-elim (or_throw (with_second_factor found) _) _ _ tokens h1 λ pair there h2.
          bind-elim (lift (assert_login_allowed pair.0.status)) _ _ tokens h2 λ a allowed h3.
            bind-elim (assert_not_locked env lib ttl pair.0.id) _ _ tokens h3 λ b unlocked h4.
              let (account, enabled, secret) =
                with_second_factor-some found pair.0 pair.1 (or_throw-ok _ _ _ pair there) in
              let start = lift-world _ _ ∙ or_throw-world _ _ _ ∙ find_by_id-world user_id w in
              let (lock, waited) = assert_not_locked-ok pair.0.id _ b unlocked in
              let attempted =
                subst (Attempted pair.0 pair.1 token temporary_auth fingerprint)
                  (waited ∙ ap (λ v. v.tick) start)
                  (attempt_second_factor-Attempted pair.0 pair.1 token temporary_auth fingerprint _
                    tokens h4) in
              record {
                account = pair.0;
                is_account = find_by_id-ok user_id w found read ∙ account;
                is_enabled = enabled;
                stored_secret = pair.1;
                is_stored = secret;
                is_active = assert_login_allowed-ok _ (lift-ok _ _ a allowed);
                is_unlocked =
                    subst
                      (λ v.
                        (assert_two_factor_not_locked pair.0.id (env.now v.tick)
                          v.memory.two_factor_failures).0
                        ≡ ok tt)
                      start lock;
                same_kind = attempted.same_kind;
                bound = attempted.bound;
                proves = attempted.proves;
              }
