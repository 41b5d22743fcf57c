-- ===== src/Http.antt =====
-- The exceptions that handlers throw, and results of code that may throw. A class of @nestjs/common
-- is a constructor with its message or machine code; `error_thrown` is a plain `Error`.
use minepanel_backend.Common.{ℕ, String, Bool, true, false}

pub data Exception : Type 0 where
  bad_request unauthorized forbidden not_found conflict : String → Exception
  too_many_requests internal_server_error service_unavailable : String → Exception
  insufficient_resources : (message resource : String) (available required total : ℕ) → Exception
  rcon_unavailable error_thrown : String → Exception
  -- a driver error with its SQLSTATE
  database_error : String → Exception

pub data Result (A : Type 0) : Type 0 where
  ok : A → Result A
  err : Exception → Result A

-- `error instanceof ServiceUnavailableException`
abbrev pub is_service_unavailable : Exception → Bool
is_service_unavailable (service_unavailable _) = true
is_service_unavailable _ = false

-- `error instanceof NotFoundException`
abbrev pub is_not_found : Exception → Bool
is_not_found (not_found _) = true
is_not_found _ = false

-- `cause instanceof HttpException`
abbrev pub is_http_exception : Exception → Bool
is_http_exception (rcon_unavailable _) = false
is_http_exception (error_thrown _) = false
is_http_exception (database_error _) = false
is_http_exception _ = true
