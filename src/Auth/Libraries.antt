-- ===== src/Auth/Libraries.antt =====
-- What src/auth/ takes from elsewhere: JSON Web Tokens, bcrypt, SHA-256, AES-GCM, JSON, otplib.
use minepanel_backend.Common.{ℕ, String, Bool, Option, List}
use minepanel_backend.Schema.{Role}
use minepanel_backend.Auth.AccessToken.{ClaimValue, Payload}

-- the claims that the code signs
pub data SignedClaims : Type 0 where
  access_claims : (sub username : String) (role : Role) (temporary_auth : Bool) → SignedClaims
  refresh_claims : (sub jti : String) (temporary_auth : Bool) → SignedClaims
  pre_auth_claims : (sub : String) (temporary_credential_fingerprint : Option String) → SignedClaims

-- what `jwtService.verifyAsync` answers
pub data TokenCheck : Type 0 where
  accepted : Payload → TokenCheck
  expired rejected : TokenCheck

-- `GoogleTokenPayload`
pub record GooglePayload : Type 0 where
  pub iss : Option ClaimValue
  pub sub : Option ClaimValue
  pub email : Option ClaimValue
  pub email_verified : Option ClaimValue
  pub nonce : Option ClaimValue
  pub name : Option ClaimValue
  pub iat : Option ClaimValue
  pub exp : Option ClaimValue

-- what `JSON.parse` answers
pub data Json : Type 0 where
  json_array : List ClaimValue → Json
  json_other : Json

-- The first argument is the number of awaited calls made before, where the answer depends on the
-- time or on a random number.
pub record Libraries : Type 0 where
  -- `jwtService.signAsync` with the lifetime of the token, if one is asked for
  pub sign : ℕ → SignedClaims → Option String → String
  pub verify_async : ℕ → String → TokenCheck
  -- `JSON.parse` of the part of a token, decoded from base64url, and of a text
  pub parse_segment : String → Option Payload
  pub parse_json : String → Option Json
  -- `JSON.stringify` of a list of texts
  pub stringify : List String → String
  pub compare_password : String → String → Bool
  pub sha256 : String → String
  pub generate_secret : ℕ → String
  pub generate_uri : (label secret : String) → String
  -- `none` where the cipher throws
  pub encrypt : ℕ → String → String
  pub decrypt : String → Option String
  -- `verifySync` with the secret and the code
  pub verify_totp : ℕ → String → String → Bool
  pub to_lower_case : String → String
  -- `crypto.randomInt` with its bounds
  pub random_int : ℕ → ℕ → ℕ → ℕ
  -- `verifyIdToken` of the Google library, for a token and an audience, and its payload, if any;
  -- `none` where it throws
  pub verify_id_token : ℕ → String → String → Option (Option GooglePayload)
