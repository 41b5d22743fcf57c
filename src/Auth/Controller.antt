-- ===== src/Auth/Controller.antt =====
-- src/auth/auth.controller.ts: the routes of accounts and sessions.
use minepanel_backend.Common.{String, Bool, true, false, Option, none, some, List, [], ◌∷◌}
use minepanel_backend.Text.{concat}
use minepanel_backend.Effects.{Env, M, pure, lift, ◌>>=◌, ◌>>◌}
use minepanel_backend.Users.Public.{PublicUser}
use minepanel_backend.Guards.Jwt.{GuardedUser}
use minepanel_backend.Guards.PreAuth.{PreAuthPayload}
use minepanel_backend.Auth.Account.{
  TwoFactorSetup, PasswordUpdateResult, edit_user_profile, update_user_password, setup_2fa,
  confirm_2fa, disable_2fa,
}
use minepanel_backend.Auth.Cookies.{Cookie, auth_cookies, cleared_cookies}
use minepanel_backend.Auth.Dto.{CreateUserDto, LoginUserDto, UpdatePasswordDto, EditUserDto}
use minepanel_backend.Auth.Google.{
  GoogleLoginOutcome, google_authenticated, google_link_confirmation_required, login_with_google,
  link_authenticated_user,
}
use minepanel_backend.Auth.Libraries.{Libraries}
use minepanel_backend.Auth.Login.{
  LoginResponse, signed_in, two_factor_challenge, register_user, login_user,
}
use minepanel_backend.Auth.Login.SecondFactor.{complete_two_factor_login}
use minepanel_backend.Auth.OauthChallenge.{create_challenge}
use minepanel_backend.Auth.RefreshToken.{require_refresh_token}
use minepanel_backend.Auth.RefreshTokenTtl.{RefreshTokenTtl}
use minepanel_backend.Auth.Sessions.{
  AuthTokens, SessionView, logout_user, logout_all, refresh_tokens, get_sessions,
  delete_single_session,
}

-- what a route sends: the cookies that it sets, and its body
pub record Response (A : Type 0) : Type 0 where
  pub cookies : List Cookie
  pub body : A

abbrev pub plain_response : {A : Type 0} → A → Response A
plain_response a = record { cookies = []; body = a }

-- the body of a sign-in
pub data LoginBody : Type 0 where
  link_confirmation_required : LoginBody
  public_user : PublicUser → LoginBody
  pre_auth_token : String → LoginBody

-- `request.ip ?? request.socket.remoteAddress ?? 'unknown'`
abbrev pub source_of : Option String → Option String → String
source_of (some ip) address = ip
source_of none (some address) = address
source_of none none = "unknown"

abbrev pub has_fingerprint : Option String → Bool
has_fingerprint none = false
has_fingerprint (some f) = true

-- the first argument says whether NODE_ENV is production
module _ (env : Env) (lib : Libraries) (ttl : RefreshTokenTtl) (production : Bool) where
  abbrev pub with_session : AuthTokens → Response LoginBody
  with_session session = record {
    cookies = auth_cookies production session.access_token session.refresh_token ttl;
    body = public_user session.user;
  }

  abbrev pub login_response : LoginResponse → Response LoginBody
  login_response (two_factor_challenge token) = plain_response (pre_auth_token token)
  login_response (signed_in session) = with_session session

  abbrev pub google_response : GoogleLoginOutcome → Response LoginBody
  google_response google_link_confirmation_required = plain_response link_confirmation_required
  google_response (google_authenticated session) = with_session session

  abbrev pub session_cookies : Option AuthTokens → List Cookie
  session_cookies none = []
  session_cookies (some session) =
      auth_cookies production session.access_token session.refresh_token ttl

  abbrev pub password_response : PasswordUpdateResult → Response PublicUser
  password_response result = record { cookies = session_cookies result.session; body = result.user }

  unfoldable pub register : CreateUserDto → M (Response String)
  register dto = do
    register_user env lib ttl dto
    pure (plain_response (concat ("User " ∷ dto.username ∷ " created successfully" ∷ [])))

  -- `source` is where the request comes from
  unfoldable pub login : LoginUserDto → (source : String) → M (Response LoginBody)
  login dto source = do
    result ←
        login_user env lib ttl dto (some (record { identifier = dto.identifier; source = source }))
    pure (login_response result)

  unfoldable pub create_oauth_challenge : M (Response String)
  create_oauth_challenge = do
    challenge ← create_challenge env lib.sha256
    pure (plain_response challenge)

  unfoldable pub google_login : (credential : String) → M (Response LoginBody)
  google_login credential = do
    outcome ← login_with_google env lib ttl credential
    pure (google_response outcome)

  unfoldable pub link_google_account : GuardedUser → (credential : String) → M (Response PublicUser)
  link_google_account u credential = do
    linked ← link_authenticated_user env lib ttl u.id credential
    pure (plain_response linked)

  -- `cookie` is the cookie `refresh_token`
  unfoldable pub logout : GuardedUser → (cookie : Option String) → M (Response (Unit {0}))
  logout u cookie = do
    refresh_token ← lift (require_refresh_token cookie)
    logout_user env lib ttl u.id refresh_token
    pure (record { cookies = cleared_cookies production; body = tt })

  unfoldable pub refresh : (cookie : Option String) → M (Response (Unit {0}))
  refresh cookie = do
    raw_refresh_token ← lift (require_refresh_token cookie)
    rotated ← refresh_tokens env lib ttl raw_refresh_token
    pure (record {
      cookies = auth_cookies production rotated.access_token rotated.refresh_token ttl;
      body = tt;
    })

  unfoldable pub logout_everywhere : GuardedUser → M (Response (Unit {0}))
  logout_everywhere u = do
    logout_all env lib ttl u.id
    pure (record { cookies = cleared_cookies production; body = tt })

  unfoldable pub sessions : GuardedUser → M (Response (List SessionView))
  sessions u = do views ← get_sessions env lib ttl u.id; pure (plain_response views)

  unfoldable pub delete_session : GuardedUser → (token_id : String) → M (Response (Unit {0}))
  delete_session u token_id = do
    delete_single_session env lib ttl u.id token_id
    pure (plain_response tt)

  unfoldable pub edit_profile : GuardedUser → EditUserDto → M (Response PublicUser)
  edit_profile u dto = do
    edited ← edit_user_profile env lib ttl u.id dto
    pure (plain_response edited)

  unfoldable pub change_password :
      GuardedUser → UpdatePasswordDto → (cookie : Option String) → M (Response PublicUser)
  change_password u dto cookie = do
    refresh_token ← lift (require_refresh_token cookie)
    result ← update_user_password env lib ttl u.id dto refresh_token u.temporary_auth
    pure (password_response result)

  unfoldable pub start_2fa : GuardedUser → M (Response TwoFactorSetup)
  start_2fa u = do started ← setup_2fa env lib ttl u.id; pure (plain_response started)

  unfoldable pub activate_2fa : GuardedUser → (token : String) → M (Response (List String))
  activate_2fa u token = do codes ← confirm_2fa env lib ttl u.id token; pure (plain_response codes)

  -- the payload is that of the guard
  unfoldable pub verify_2fa : PreAuthPayload → (token : String) → M (Response LoginBody)
  verify_2fa pre_auth token = do
    session ←
        complete_two_factor_login env lib ttl pre_auth.sub token
          (has_fingerprint pre_auth.temporary_credential_fingerprint)
          pre_auth.temporary_credential_fingerprint
    pure (with_session session)

  unfoldable pub remove_2fa : GuardedUser → (token : String) → M (Response Bool)
  remove_2fa u token = do
    removed ← disable_2fa env lib ttl u.id token
    pure (plain_response removed)
