-- ===== src/Auth/Sessions/Admits.antt =====
-- src/auth/auth.service.ts: what a rotation that succeeds has checked.
use minepanel_backend.Common.{
  ℕ, suc, ◌<◌, String, ◌≡◌, refl, sym, ap, ◌∙◌, subst, Bool, true, false, Option, none, some, leb,
  ◌==◌, Bool-cases, true-false, ◌⊎◌, bool_eq, inl, inr, arith,
}
use minepanel_backend.Http.{Exception, Result, ok, err}
use minepanel_backend.Schema.{User, UserStatus, active, pending, banned, RefreshToken}
use minepanel_backend.Effects.{Env, World, lift, call, ◌>>=◌}
use minepanel_backend.Effects.Inversion.{bind-elim, lift-world, lift-ok, call-ok}
use minepanel_backend.Admin.Statements.{find_user}
use minepanel_backend.Auth.Libraries.{Libraries}
use minepanel_backend.Auth.RefreshToken.{RefreshTokenClaims}
use minepanel_backend.Auth.RefreshTokenTtl.{RefreshTokenTtl}
use minepanel_backend.Auth.Sessions.{
  RotatedTokens, assert_login_allowed, find_token, check_claims, load_stored, load_owner,
  refresh_tokens,
}

-- the world after a query
abbrev pub next : Env → World → World
next env w = record {
  db = env.interfere w.tick w.db;
  memory = env.interfere_memory w.tick w.memory;
  tick = suc w.tick;
}

abbrev called : Env → World → World
called env w = record {
  db = w.db;
  memory = env.interfere_memory w.tick w.memory;
  tick = suc w.tick;
}

-- What a rotation has found: the token verified in the world `w`, the session in the next, and the
-- account after that.
pub record Admits (env : Env) (lib : Libraries) (raw : String) (w : World) : Type 0 where
  pub claims : RefreshTokenClaims
  pub is_signed : check_claims (lib.verify_async w.tick raw) ≡ ok claims
  pub stored : RefreshToken
  pub is_stored : find_token (lib.sha256 claims.jti) (next env (called env w)).db ≡ some stored
  pub is_current : env.now (suc (suc w.tick)) < stored.expires_at
  pub owner : User
  pub is_owner : find_user claims.sub (next env (next env (called env w))).db ≡ some owner
  pub is_active : owner.status ≡ active
  pub matches : owner.must_change_password ≡ claims.temporary_auth

err≢ok : {A : Type 0} {e : Exception} {a : A} → err e ≡ ok a → ⊥
err≢ok h = cc

ok-injective : {A : Type 0} {a b : A} → ok a ≡ ok b → a ≡ b
ok-injective h = cc

late : (expires now : ℕ) → leb expires now ≡ false → now < expires
late expires now h = ground arith

pub bool_same : (a b : Bool) → (a == b) ≡ true → a ≡ b
bool_same true true h = refl
bool_same true false h = absurd (true-false (sym h))
bool_same false true h = absurd (true-false (sym h))
bool_same false false h = refl

allowed-cases : (r : Result (Unit {0})) → (r ≡ ok tt) ⊎ ((e : Exception) × (r ≡ err e))
allowed-cases (ok tt) = inl refl
allowed-cases (err e) = inr (e, refl)

pub assert_login_allowed-ok :
    (status : UserStatus) → assert_login_allowed status ≡ ok tt → status ≡ active
assert_login_allowed-ok active h = refl
assert_login_allowed-ok pending h = absurd (err≢ok h)
assert_login_allowed-ok banned h = absurd (err≢ok h)

module _ (env : Env) (lib : Libraries) (ttl : RefreshTokenTtl) where
  record LoadedStored (jti : String) (w : World) (stored : RefreshToken) : Type 0 where
    is_stored : find_token (lib.sha256 jti) (next env w).db ≡ some stored
    is_current : env.now (suc w.tick) < stored.expires_at
    world : (load_stored env lib ttl jti w).1 ≡ next env w

  load_stored-ok :
      (jti : String) (w : World) (stored : RefreshToken)
      → (load_stored env lib ttl jti w).0 ≡ ok stored
      → LoadedStored jti w stored
  unfolding load_stored ◌>>=◌
  load_stored-ok jti w stored h = go (find_token (lib.sha256 jti) (next env w).db) refl
    where
      go :
          (found : Option RefreshToken)
          → find_token (lib.sha256 jti) (next env w).db ≡ found
          → LoadedStored jti w stored
      go none e = absurd (err≢ok (rw e at h))
      go (some t) e = elim (Bool-cases (leb t.expires_at (env.now (suc w.tick)))) [
        | inl over ↦ absurd (err≢ok (rw (e, over) at h))
        | inr current ↦
            let same : t ≡ stored = ok-injective (rw (e, current) at h) in
            record {
              is_stored = e ∙ ap some same;
              is_current = subst (λ x. env.now (suc w.tick) < x.expires_at) same (late _ _ current);
              world = rw (e, current) refl;
            }
      ]

  record LoadedOwner (claims : RefreshTokenClaims) (w : World) (owner : User) : Type 0 where
    is_owner : find_user claims.sub (next env w).db ≡ some owner
    is_active : owner.status ≡ active
    matches : owner.must_change_password ≡ claims.temporary_auth

  load_owner-ok :
      (claims : RefreshTokenClaims) (w : World) (owner : User)
      → (load_owner env lib ttl claims w).0 ≡ ok owner
      → LoadedOwner claims w owner
  unfolding load_owner ◌>>=◌
  load_owner-ok claims w owner h = go (find_user claims.sub (next env w).db) refl
    where
      go :
          (found : Option User)
          → find_user claims.sub (next env w).db ≡ found
          → LoadedOwner claims w owner
      go none e = absurd (err≢ok (rw e at h))
      go (some u) e = elim (Bool-cases (u.must_change_password == claims.temporary_auth)) [
        | inl suits ↦ elim (allowed-cases (assert_login_allowed u.status)) [
          | inl fine ↦
              let same : u ≡ owner = ok-injective (rw (e, suits, fine) at h) in
              record {
                is_owner = e ∙ ap some same;
                is_active =
                    subst (λ x. x.status ≡ active) same (assert_login_allowed-ok u.status fine);
                matches =
                    subst (λ x. x.must_change_password ≡ claims.temporary_auth) same
                      (bool_same _ _ suits);
              }
          | inr (x, refused) ↦ absurd (err≢ok (rw (e, suits, refused) at h))
        ]
        | inr differs ↦ absurd (err≢ok (rw (e, differs) at h))
      ]

  call-called : {A : Type 0} (f : ℕ → A) → (v : World) → (call env f v).1 ≡ called env v
  unfolding ◌>>=◌
  call-called f v = refl

  -- A rotation that succeeds has verified a refresh token whose session is stored and has not
  -- expired, of an account that is active and has to change its password exactly if the session
  -- began with a temporary one.
  pub refresh_tokens-Admits :
      (raw : String) (w : World) (rotated : RotatedTokens)
      → (refresh_tokens env lib ttl raw w).0 ≡ ok rotated
      → Admits env lib raw w
  unfolding refresh_tokens
  refresh_tokens-Admits raw w rotated h = bind-elim (call env _) _ w rotated h λ check verified h1.
      bind-elim (lift (check_claims check)) _ _ rotated h1 λ claims signed h2.
        bind-elim (load_stored env lib ttl claims.jti) _ _ rotated h2 λ stored loaded h3.
          bind-elim (load_owner env lib ttl claims) _ _ rotated h3 λ owner owned h4.
            let start : (lift (check_claims check) (call env _ w).1).1 ≡ called env w =
              lift-world _ _ ∙ call-called _ w in
            let session : LoadedStored claims.jti (called env w) stored =
              load_stored-ok claims.jti (called env w) stored
                (ap (λ v. (load_stored env lib ttl claims.jti v).0) (sym start) ∙ loaded) in
            let account : LoadedOwner claims (next env (called env w)) owner =
              load_owner-ok claims (next env (called env w)) owner (
                ap (λ v. (load_owner env lib ttl claims v).0)
                  (sym (ap (λ v. (load_stored env lib ttl claims.jti v).1) start ∙ session.world))
                ∙ owned) in
            record {
              claims = claims;
              is_signed =
                  ap check_claims (call-ok env _ w check verified) ∙ lift-ok _ _ claims signed;
              stored = stored;
              is_stored = session.is_stored;
              is_current = session.is_current;
              owner = owner;
              is_owner = account.is_owner;
              is_active = account.is_active;
              matches = account.matches;
            }
