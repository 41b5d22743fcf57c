-- ===== src/Auth.antt =====
-- src/auth/: sign-in, tokens and their limits.
pub mod LoginAbuse
pub mod AccessToken
pub mod OauthChallenge
pub mod Password
pub mod TwoFactor
pub mod Libraries
pub mod Dto
pub mod RefreshToken
pub mod RefreshTokenTtl
pub mod Sessions
pub mod Login
pub mod Account
pub mod Identity
pub mod Google
pub mod Cookies
pub mod Controller
