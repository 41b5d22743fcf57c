-- ===== src/Auth/RefreshTokenTtl/Tests.antt =====
-- The lifetime of refresh tokens on concrete data.
use minepanel_backend.Common.{◌≡◌, refl, none, some, arith}
use minepanel_backend.Http.{ok, err}
use minepanel_backend.Text.{classes, trim, decimal, decimal_value}
use minepanel_backend.Auth.RefreshTokenTtl.{h, span_digits, invalid_ttl, parse_refresh_token_ttl}
use minepanel_backend.Auth.RefreshTokenTtl.RoundTrip.{parse_refresh_token_ttl-decimal}

ttl_run : Unit {0}
unfolding classes trim decimal decimal_value span_digits parse_refresh_token_ttl
ttl_run = tt

default_lifetime :
    parse_refresh_token_ttl none ≡ ok (record { expires_in = "7d"; milliseconds = 604800000 })
unfolding ttl_run
default_lifetime = refl

leading_zero : parse_refresh_token_ttl (some "07d") ≡ err invalid_ttl
unfolding ttl_run
leading_zero = refl

upper_case :
    parse_refresh_token_ttl (some "90MS") ≡ ok (record { expires_in = "90ms"; milliseconds = 90 })
unfolding ttl_run
upper_case = refl

parse_refresh_token_ttl-decimal_example :
    parse_refresh_token_ttl (some "12h")
    ≡ ok (record { expires_in = "12h"; milliseconds = 43200000 })
unfolding ttl_run
parse_refresh_token_ttl-decimal_example = parse_refresh_token_ttl-decimal 12 h (omega arith)
