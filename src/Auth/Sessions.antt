-- ===== src/Auth/Sessions.antt =====
-- src/auth/auth.service.ts: sessions, their issue, rotation and end.
pub mod SingleUse
pub mod Admits
mod Tests
use minepanel_backend.Common.{
  ℕ, ◌+◌, String, Bool, true, false, not, ◌&&◌, Option, none, some, List, filter, find, map, ltb,
  leb, ◌==◌, if◌then◌else◌, string_eq, bool_eq,
}
use minepanel_backend.Http.{Exception, Result, ok, err, unauthorized, forbidden}
use minepanel_backend.Schema.{Db, User, UserStatus, active, pending, banned, RefreshToken}
use minepanel_backend.Effects.{
  Env, M, pure, lift, or_throw, throw_if, clock, fresh_id, call, query, statement, ◌>>=◌, ◌>>◌,
}
use minepanel_backend.Admin.Statements.{find_user}
use minepanel_backend.Users.Public.{PublicUser, to_public_user}
use minepanel_backend.Users.Statements.{delete_tokens, insert_token}
use minepanel_backend.Auth.Libraries.{
  Libraries, access_claims, refresh_claims, TokenCheck, accepted, expired, rejected,
}
use minepanel_backend.Auth.AccessToken.{Payload}
use minepanel_backend.Auth.RefreshToken.{
  RefreshTokenClaims, valid_refresh_claims, claims_failure, read_refresh_token_id,
}
use minepanel_backend.Auth.RefreshTokenTtl.{RefreshTokenTtl}

pub record AuthTokens : Type 0 where
  pub user : PublicUser
  pub access_token : String
  pub refresh_token : String

-- what a rotation answers
pub record RotatedTokens : Type 0 where
  pub access_token : String
  pub refresh_token : String

-- `assertLoginAllowed`
abbrev pub assert_login_allowed : UserStatus → Result (Unit {0})
assert_login_allowed pending = err (forbidden "AccountPending")
assert_login_allowed banned = err (forbidden "AccountBanned")
assert_login_allowed active = ok tt

abbrev pub has_hash : String → RefreshToken → Bool
has_hash hash t = t.token_id_hash == hash

abbrev pub find_token : String → Db → Option RefreshToken
find_token hash db = find (has_hash hash) db.refresh_tokens

abbrev pub is_token : String → RefreshToken → Bool
is_token id t = t.id == id

-- DELETE … WHERE id = … RETURNING
abbrev pub take_token : String → Db → Option RefreshToken × Db
take_token id db = (find (is_token id) db.refresh_tokens, (delete_tokens (is_token id) db).1)

abbrev pub is_expired_of : String → ℕ → RefreshToken → Bool
is_expired_of user_id now t = t.user_id == user_id && leb t.expires_at now

abbrev pub is_live_of : String → ℕ → RefreshToken → Bool
is_live_of user_id now t = t.user_id == user_id && ltb now t.expires_at

-- a session as its owner sees it, without the hash
pub record SessionView : Type 0 where
  pub id : String
  pub user_id : String
  pub expires_at : ℕ
  pub created_at : ℕ

abbrev pub to_session_view : RefreshToken → SessionView
to_session_view t = record {
  id = t.id;
  user_id = t.user_id;
  expires_at = t.expires_at;
  created_at = t.created_at;
}

abbrev pub refresh_token_bytes : ℕ
refresh_token_bytes = 32

-- the claims of a verified refresh token
abbrev pub checked_claims : Payload → Option RefreshTokenClaims → Result RefreshTokenClaims
checked_claims payload none = err (claims_failure payload)
checked_claims payload (some claims) = ok claims

abbrev pub check_claims : TokenCheck → Result RefreshTokenClaims
check_claims expired = err (unauthorized "RefreshTokenExpired")
check_claims rejected = err (unauthorized "RefreshTokenInvalid")
check_claims (accepted payload) = checked_claims payload (valid_refresh_claims payload)

abbrev pub refresh_invalid : Exception
refresh_invalid = unauthorized "RefreshTokenInvalid"

abbrev pub refresh_expired : Exception
refresh_expired = unauthorized "RefreshTokenExpired"

module _ (env : Env) (lib : Libraries) (ttl : RefreshTokenTtl) where
  -- the row of `buildIssuedRefreshToken`
  abbrev pub issued_row : String → String → String → ℕ → RefreshToken
  issued_row id jti user_id now = record {
    id = id;
    token_id_hash = lib.sha256 jti;
    user_id = user_id;
    expires_at = now + ttl.milliseconds;
    created_at = now;
  }

  -- `buildIssuedRefreshToken` and the insert that follows it, with the signed token
  unfoldable pub insert_issued : String → String → Bool → M String
  insert_issued user_id jti temporary_auth = do
    refresh_token ←
        call env (λ n. lib.sign n (refresh_claims user_id jti temporary_auth) (some ttl.expires_in))
    now ← clock env
    id ← fresh_id env
    inserted ← statement env (insert_token (issued_row id jti user_id now))
    lift inserted
    pure refresh_token

  unfoldable pub issue_session : User → Bool → M AuthTokens
  issue_session u temporary_auth = do
    seed ← clock env
    let jti = env.random_text seed refresh_token_bytes
    access_token ←
        call env (λ n. lib.sign n (access_claims u.id u.username u.role temporary_auth) none)
    refresh_token ← insert_issued u.id jti temporary_auth
    pure (record {
      user = to_public_user u;
      access_token = access_token;
      refresh_token = refresh_token;
    })

  unfoldable pub logout_user : String → String → M (Unit {0})
  logout_user user_id refresh_token = do
    token_id ← lift (read_refresh_token_id lib refresh_token)
    statement env (delete_tokens (λ t. t.user_id == user_id && has_hash (lib.sha256 token_id) t))

  unfoldable pub logout_all : String → M (Unit {0})
  logout_all user_id = statement env (delete_tokens (λ t. t.user_id == user_id))

  -- the stored session of the token, if it has not expired
  unfoldable pub load_stored : String → M RefreshToken
  load_stored jti = do
    found ← query env (find_token (lib.sha256 jti))
    stored ← or_throw found refresh_expired
    now ← clock env
    throw_if (leb stored.expires_at now) refresh_expired
    pure stored

  -- the account, locked for the rest of the transaction
  unfoldable pub load_owner : RefreshTokenClaims → M User
  load_owner claims = do
    found ← query env (find_user claims.sub)
    owner ← or_throw found refresh_invalid
    throw_if (not (owner.must_change_password == claims.temporary_auth)) refresh_invalid
    lift (assert_login_allowed owner.status)
    pure owner

  -- the old session goes, and the new one comes
  unfoldable pub rotate : RefreshToken → User → Bool → M RotatedTokens
  rotate stored owner temporary_auth = do
    seed ← clock env
    let jti = env.random_text seed refresh_token_bytes
    access_token ←
        call env
          (λ n. lib.sign n (access_claims owner.id owner.username owner.role temporary_auth) none)
    consumed ← statement env (take_token stored.id)
    or_throw consumed refresh_invalid
    refresh_token ← insert_issued owner.id jti temporary_auth
    pure (record { access_token = access_token; refresh_token = refresh_token })

  unfoldable pub refresh_tokens : String → M RotatedTokens
  refresh_tokens raw_refresh_token = do
    check ← call env (λ n. lib.verify_async n raw_refresh_token)
    claims ← lift (check_claims check)
    stored ← load_stored claims.jti
    owner ← load_owner claims
    rotated ← rotate stored owner claims.temporary_auth
    now ← clock env
    statement env (delete_tokens (is_expired_of claims.sub now))
    pure rotated

  unfoldable pub get_sessions : String → M (List SessionView)
  get_sessions user_id = do
    now ← clock env
    rows ← query env (λ db. filter (is_live_of user_id now) db.refresh_tokens)
    pure (map to_session_view rows)

  unfoldable pub delete_single_session : String → String → M (Unit {0})
  delete_single_session user_id token_id =
      statement env (delete_tokens (λ t. t.user_id == user_id && is_token token_id t))
