-- ===== src/Memory.antt =====
-- What the process keeps in memory between requests: the failed second factors of
-- src/auth/auth.service.ts and the failed sign-ins of src/auth/login-abuse.service.ts.
use minepanel_backend.Common.{List}
use minepanel_backend.Auth.LoginAbuse.{Abuse}
use minepanel_backend.Auth.TwoFactor.{TwoFactorFailure}

pub record Memory : Type 0 where
  pub two_factor_failures : List TwoFactorFailure
  pub abuse : Abuse
