-- ===== src/Auth/Google.antt =====
-- src/auth/google-token.service.ts and google-oauth.service.ts: sign-in with Google.
pub mod Username
mod Tests
use Prim.Native.Char.{Char, code}
use Prim.Native.String
use Prim.Native.String.{[], ◌∷◌}
use minepanel_backend.Common.{
  ℕ, zero, suc, ◌+◌, ◌-◌, ◌*◌, ◌/◌, String, Bool, true, false, not, ◌&&◌, ◌||◌, Option, none, some,
  ltb, leb, ◌==◌, if◌then◌else◌, nat_eq, string_eq,
}
use minepanel_backend.Http.{
  Exception, Result, ok, err, unauthorized, service_unavailable, error_thrown,
}
use minepanel_backend.Schema.{User}
use minepanel_backend.Text.{trim, slice, split_at}
use minepanel_backend.Effects.{
  Env, M, pure, throw, lift, or_throw, throw_if, clock, call, ◌>>=◌, ◌>>◌,
}
use minepanel_backend.Users.Public.{PublicUser, to_public_user}
use minepanel_backend.Auth.AccessToken.{ClaimValue, text, flag, whole, fraction, null, other}
use minepanel_backend.Auth.Identity.{
  ProviderIdentityResolution, authenticated, created, link_confirmation_required, google,
  is_name_char, link_google_identity, resolve_provider_identity,
}
use minepanel_backend.Auth.Libraries.{Libraries, GooglePayload}
use minepanel_backend.Auth.Login.{issue_provider_session}
use minepanel_backend.Auth.OauthChallenge.{is_raw_challenge, verify_and_consume}
use minepanel_backend.Auth.RefreshTokenTtl.{RefreshTokenTtl}
use minepanel_backend.Auth.Sessions.{AuthTokens}

pub record GoogleTokenClaims : Type 0 where
  pub sub : String
  pub email : String
  pub nonce : String
  pub name : Option ClaimValue

abbrev pub max_token_age_seconds : ℕ
max_token_age_seconds = 5 * 60

abbrev pub clock_skew_seconds : ℕ
clock_skew_seconds = 60

abbrev pub is_google_issuer : String → Bool
is_google_issuer iss = iss == "accounts.google.com" || iss == "https://accounts.google.com"

-- the times of the token, in seconds
abbrev pub is_current : ℕ → ℕ → ℕ → Bool
is_current now iat exp =
    leb iat (now + clock_skew_seconds) && leb now (iat + max_token_age_seconds) && ltb now exp

abbrev pub google_claims_of :
    ℕ
    → Option ClaimValue
    → Option ClaimValue
    → Option ClaimValue
    → Option ClaimValue
    → Option ClaimValue
    → Option ClaimValue
    → Option ClaimValue
    → Option ClaimValue
    → Option GoogleTokenClaims
google_claims_of now (some (text iss)) (some (text sub)) (some (text email)) (some (flag true))
      (some (text nonce)) (some (whole iat)) (some (whole exp)) name =
    if is_google_issuer iss
      && not (trim sub == "")
      && not (trim email == "")
      && is_raw_challenge nonce
      && is_current now iat exp
    then some (record { sub = sub; email = trim email; nonce = nonce; name = name })
    else none
google_claims_of now _ _ _ _ _ _ _ _ = none

-- `hasRequiredClaims`, with the claims
unfoldable pub required_claims : ℕ → GooglePayload → Option GoogleTokenClaims
required_claims now p =
    google_claims_of now p.iss p.sub p.email p.email_verified p.nonce p.iat p.exp p.name

abbrev pub invalid_credential : Exception
invalid_credential = unauthorized "InvalidGoogleCredential"

abbrev pub payload_claims : ℕ → Option (Option GooglePayload) → Option GoogleTokenClaims
payload_claims now (some (some p)) = required_claims now p
payload_claims now _ = none

abbrev pub trimmed_or_none : Option String → Option String
trimmed_or_none none = none
trimmed_or_none (some s) = if trim s == "" then none else some (trim s)

-- `replace(/[^a-z0-9_]+/g, '_')`: whether the character before was replaced
unfoldable pub replace_others : Bool → String → String
replace_others replaced [] = []
replace_others replaced (c ∷ s) =
    let rest = replace_others (not (is_name_char (code c))) s in
    if is_name_char (code c) then c ∷ rest else if replaced then rest else String.◌++◌ "_" rest

unfoldable pub drop_underscores : String → String
drop_underscores [] = []
drop_underscores (c ∷ s) = if code c == b'_' then drop_underscores s else c ∷ s

unfoldable pub drop_last_underscores : String → String
drop_last_underscores [] = []
drop_last_underscores (c ∷ s) =
    let rest = drop_last_underscores s in if code c == b'_' && rest == "" then "" else c ∷ rest

unfoldable pub drop_last : String → String
drop_last [] = []
drop_last (c ∷ []) = []
drop_last (c ∷ d ∷ s) = c ∷ drop_last (d ∷ s)

-- `email.slice(0, email.indexOf('@'))`
abbrev pub local_part : String → Option (String × String) → String
local_part email none = drop_last email
local_part email (some (name, host)) = name

-- `padEnd(3, '_')`
unfoldable pub pad_end : ℕ → String → String
pad_end zero s = s
pad_end (suc n) [] = String.◌++◌ "_" (pad_end n [])
pad_end (suc n) (c ∷ s) = c ∷ pad_end n s

abbrev pub or_user : String → String
or_user name = if name == "" then "user" else name

-- `displayName?.trim() || …`
abbrev pub username_source : String → Option ClaimValue → Result String
username_source email (some (text name)) =
    ok (if trim name == "" then local_part email (split_at b'@' email) else trim name)
username_source email none = ok (local_part email (split_at b'@' email))
username_source email (some null) = ok (local_part email (split_at b'@' email))
username_source email (some _) = err (error_thrown "TypeError")

-- `usernameForClaims`, from its source on
unfoldable pub normalized_username : (String → String) → String → String
unfolding replace_others drop_underscores drop_last_underscores pad_end
normalized_username lower source = pad_end 3 (
    or_user
      (slice 32 (drop_last_underscores (drop_underscores (replace_others false (lower source))))))

-- `GoogleLoginOutcome`
pub data GoogleLoginOutcome : Type 0 where
  google_authenticated : AuthTokens → GoogleLoginOutcome
  google_link_confirmation_required : GoogleLoginOutcome

module _ (env : Env) (lib : Libraries) (ttl : RefreshTokenTtl) where
  unfoldable pub verify_credential : String → M GoogleTokenClaims
  verify_credential credential = do
    audience ←
        or_throw (trimmed_or_none (env.config "GOOGLE_CLIENT_ID"))
          (service_unavailable "GoogleOAuthUnavailable")
    ticket ← call env (λ n. lib.verify_id_token n credential audience)
    now ← clock env
    claims ← or_throw (payload_claims (now / 1000) ticket) invalid_credential
    pure (record claims { email = lib.to_lower_case claims.email })

  -- the claims of a credential whose challenge was unused
  unfoldable pub claim_credential : String → M GoogleTokenClaims
  claim_credential credential = do
    claims ← verify_credential credential
    consumed ← verify_and_consume env lib.sha256 claims.nonce
    throw_if (not consumed) (unauthorized "InvalidGoogleChallenge")
    pure claims

  unfoldable pub start_provider_session : User → M GoogleLoginOutcome
  start_provider_session u = do
    session ← issue_provider_session env lib ttl u
    pure (google_authenticated session)

  abbrev pub google_outcome : ProviderIdentityResolution → M GoogleLoginOutcome
  google_outcome (link_confirmation_required u) = pure google_link_confirmation_required
  google_outcome (authenticated u) = start_provider_session u
  google_outcome (created u) = start_provider_session u

  unfoldable pub login_with_google : String → M GoogleLoginOutcome
  login_with_google credential = do
    claims ← claim_credential credential
    source ← lift (username_source claims.email claims.name)
    resolution ← resolve_provider_identity env lib (record {
      provider = google;
      provider_id = claims.sub;
      email = claims.email;
      username = normalized_username lib.to_lower_case source;
    })
    google_outcome resolution

  unfoldable pub link_authenticated_user : String → String → M PublicUser
  link_authenticated_user user_id credential = do
    claims ← claim_credential credential
    u ← link_google_identity env lib user_id claims.sub
    pure (to_public_user u)
