-- ===== src/Auth/Cookies.antt =====
-- src/auth/auth-cookies.ts: the cookies of a session.
use minepanel_backend.Common.{ℕ, ◌*◌, String, Bool, true, false, List, [], ◌∷◌}
use minepanel_backend.Auth.RefreshTokenTtl.{RefreshTokenTtl}

pub data SameSite : Type 0 where
  lax none_ : SameSite

-- `SessionCookieOptions`
pub record CookieOptions : Type 0 where
  pub http_only : Bool
  pub secure : Bool
  pub same_site : SameSite
  pub partitioned : Bool
  pub path : String
  pub max_age : ℕ

pub record Cookie : Type 0 where
  pub name : String
  pub value : String
  pub options : CookieOptions

abbrev pub access_token_cookie_max_age_ms : ℕ
access_token_cookie_max_age_ms = 15 * 60 * 1000

-- `NODE_ENV === 'production'` is the first argument
abbrev pub session_cookie_options : Bool → ℕ → CookieOptions
session_cookie_options true max_age = record {
  http_only = true;
  secure = true;
  same_site = none_;
  partitioned = true;
  path = "/";
  max_age = max_age;
}
session_cookie_options false max_age = record {
  http_only = true;
  secure = false;
  same_site = lax;
  partitioned = false;
  path = "/";
  max_age = max_age;
}

abbrev pub access_token_cookie : Bool → String → Cookie
access_token_cookie production access_token = record {
  name = "access_token";
  value = access_token;
  options = session_cookie_options production access_token_cookie_max_age_ms;
}

abbrev pub refresh_token_cookie : Bool → String → RefreshTokenTtl → Cookie
refresh_token_cookie production refresh_token ttl = record {
  name = "refresh_token";
  value = refresh_token;
  options = session_cookie_options production ttl.milliseconds;
}

-- `setAuthCookies`, for the two tokens
abbrev pub auth_cookies : Bool → String → String → RefreshTokenTtl → List Cookie
auth_cookies production access_token refresh_token ttl =
    access_token_cookie production access_token
    ∷ refresh_token_cookie production refresh_token ttl
    ∷ []

-- `clearAuthCookies`
abbrev pub cleared_cookies : Bool → List Cookie
cleared_cookies production =
    record { name = "access_token"; value = ""; options = session_cookie_options production 0 }
    ∷ record { name = "refresh_token"; value = ""; options = session_cookie_options production 0 }
    ∷ []
