-- ===== src/Gateway/Events/Tests.antt =====
-- An administrator who connects, on concrete data.
use minepanel_backend.Common.{◌≡◌, refl, true, false, none, some, [], ◌∷◌}
use minepanel_backend.Schema.{admin}
use minepanel_backend.Text.{classes, trim}
use minepanel_backend.Auth.AccessToken.{AccessTokenPrincipal}
use minepanel_backend.Auth.Password.{byte_length}
use minepanel_backend.Gateway.Reservations.{claim, release}
use minepanel_backend.Gateway.Events.{
  Gateway, stop_polling, leave_admins, cleanup_socket, disconnect_silent,
}
use minepanel_backend.Gateway.Events.Tokens.{
  one_header, split_semicolons, scan_parts, parse_access_cookie,
}
use minepanel_backend.Gateway.Events.Polling.{finish, begin_check, tick}
use minepanel_backend.Gateway.Events.Handlers.{handle_connection, admit, on_auth_success}
use minepanel_backend.Gateway.Events.Population.{Orderly}
use minepanel_backend.Gateway.Events.Reachable.{
  stays, turns, connects, is_verified, Becomes-Orderly,
}

abbrev idle : Gateway
idle = record {
  connections = [];
  admin_count = 0;
  poll_generation = 0;
  in_flight = false;
  pending_immediate = false;
  live = true;
  polling = false;
  cached_at = none;
  polls = [];
  scheduled = 0;
  sent = [];
  raw_closed = [];
  reservations = record { pending = record { id = "e1"; claimed = false } ∷ []; closed = [] };
}

abbrev ann : AccessTokenPrincipal
ann = record {
  id = "ann";
  username = "ann";
  role = admin;
  must_change_password = false;
  temporary_auth = false;
  exp = 5000;
}

abbrev connected : Gateway
connected = handle_connection some "s1" "e1" (one_header "a=b; access_token=x") idle

abbrev admitted : Gateway
admitted = on_auth_success 1000 "s1" ann "x" connected

gateway_run : Unit {0}
unfolding classes trim byte_length claim release stop_polling leave_admins cleanup_socket
    disconnect_silent split_semicolons scan_parts parse_access_cookie finish begin_check tick
    handle_connection admit on_auth_success
gateway_run = tt

polls_at_once : (admitted.admin_count ≡ 1) × (admitted.polling ≡ true) × (admitted.in_flight ≡ true)
unfolding gateway_run
polls_at_once = (refl, refl, refl)

Becomes-Orderly_example : Orderly admitted
unfolding gateway_run
Becomes-Orderly_example = Becomes-Orderly some idle admitted refl refl refl (
    turns (turns stays (connects "s1" "e1" (one_header "a=b; access_token=x")))
      (is_verified 1000 "s1" ann "x" _ refl refl))
