-- ===== src/Gateway/Events/Handlers.antt =====
-- src/gateway/events.gateway.ts: the handlers of sockets, timers and of the end of the module.
use minepanel_backend.Common.{
  ℕ, ◌+◌, ◌-◌, String, Bool, true, false, not, ◌||◌, ◌&&◌, Option, none, some, is_some, List, [],
  ◌∷◌, ◌++◌, find, leb, ltb, ◌==◌, if◌then◌else◌, string_eq, nat_eq,
}
use minepanel_backend.Auth.AccessToken.{AccessTokenPrincipal}
use minepanel_backend.Gateway.Reservations.{claim, release}
use minepanel_backend.Gateway.Events.{
  Connection, waiting, verifying, authenticated, AuthStatus, Gateway, cache_ttl_ms, is_socket,
  with_socket, stop_polling, cleanup_socket, closed, disconnect_silent, is_eligible,
}
use minepanel_backend.Gateway.Events.Polling.{tick}
use minepanel_backend.Gateway.Events.Tokens.{
  CookieParseResult, token, invalid, absent, CookieHeader, AuthEventValue, parse_access_cookie,
  parse_auth_payload,
}

abbrev pub new_connection : String → String → Connection
new_connection id engine_id = record {
  id = id;
  engine_id = engine_id;
  status = waiting;
  deadline = false;
  listener = false;
  expiry = false;
  principal = none;
  access_token = none;
  connected = true;
  in_room = false;
  tracked = true;
}

abbrev pub by_cookie : String → CookieParseResult → Gateway → Gateway
by_cookie id invalid g = disconnect_silent id g
by_cookie id (token t) g = with_socket id (λ c. record c { status = verifying }) g
by_cookie id absent g = with_socket id (λ c. record c { listener = true }) g

-- `handleConnection`; `decode` is `decodeURIComponent`
unfoldable pub handle_connection :
    (String → Option String) → String → String → CookieHeader → Gateway → Gateway
handle_connection decode id engine_id header g =
    let (claimed, reservations) = claim engine_id g.reservations in
    let known = record g {
      connections = new_connection id engine_id ∷ g.connections;
      reservations = reservations;
    } in
    if claimed
    then by_cookie id (parse_access_cookie decode header)
        (with_socket id (λ c. record c { deadline = true }) known)
    else disconnect_silent id known

abbrev pub is_waiting : AuthStatus → Bool
is_waiting waiting = true
is_waiting verifying = false
is_waiting authenticated = false

abbrev pub by_payload : String → CookieParseResult → Gateway → Gateway
by_payload id (token t) g = g
by_payload id invalid g = disconnect_silent id g
by_payload id absent g = disconnect_silent id g

abbrev pub heard : String → AuthEventValue → Option Connection → Gateway → Gateway
heard id payload none g = g
heard id payload (some c) g =
    if not c.listener
    then g
    else if is_waiting c.status
    then by_payload id (parse_auth_payload payload)
        (with_socket id (λ x. record x { status = verifying }) g)
    else disconnect_silent id g

-- the listener of the event `auth`
unfoldable pub on_auth : String → AuthEventValue → Gateway → Gateway
on_auth id payload g = heard id payload (find (is_socket id) g.connections) g

-- `startPollingIfNeeded`
abbrev pub start_polling : Gateway → Gateway
start_polling g =
    if g.polling
    then g
    else let started = record g { polling = true } in
      if g.in_flight then record started { pending_immediate = true } else tick true started

abbrev pub emit_if_fresh : ℕ → String → Option ℕ → Gateway → Gateway
emit_if_fresh now id none g = g
emit_if_fresh now id (some at) g =
    if ltb (now - at) cache_ttl_ms then record g { sent = g.sent ++ id ∷ [] } else g

-- the socket joins the room, and leaves it again if the token has expired meanwhile
unfoldable pub admit : ℕ → String → AccessTokenPrincipal → String → Gateway → Gateway
admit now id principal access_token g =
    let joined =
      record (with_socket id
        (λ c. record c {
          status = authenticated;
          deadline = false;
          principal = some principal;
          access_token = some access_token;
          in_room = true;
        })
        g) { admin_count = g.admin_count + 1 } in
    if leb principal.exp now
    then disconnect_silent id joined
    else let armed = with_socket id (λ c. record c { expiry = true }) joined in
      start_polling (emit_if_fresh now id armed.cached_at armed)

abbrev pub accepted_socket :
    ℕ → String → AccessTokenPrincipal → String → Connection → Gateway → Gateway
accepted_socket now id principal access_token c g =
    if not c.connected
    then g
    else if is_eligible principal
    then admit now id principal access_token g
    else with_socket id (λ x. closed (record x { deadline = false })) g

abbrev pub released : ℕ → String → AccessTokenPrincipal → String → Connection → Gateway → Gateway
released now id principal access_token c g =
    let (found, reservations) = release c.engine_id false g.reservations in
    if c.engine_id == ""
    then disconnect_silent id g
    else if found
    then accepted_socket now id principal access_token c (record g { reservations = reservations })
    else disconnect_silent id g

abbrev pub verified :
    ℕ → String → AccessTokenPrincipal → String → Option Connection → Gateway → Gateway
verified now id principal access_token none g = g
verified now id principal access_token (some c) g =
    if g.live then released now id principal access_token c g else g

-- `onAuthSuccess`
unfoldable pub on_auth_success : ℕ → String → AccessTokenPrincipal → String → Gateway → Gateway
on_auth_success now id principal access_token g =
    verified now id principal access_token (find (is_socket id) g.connections) g

abbrev pub untrack : Option Connection → String → Gateway → Gateway
untrack none id g = g
untrack (some c) id g =
    let gone = with_socket id (λ x. record (closed x) { tracked = false }) (cleanup_socket id g) in
    if is_some c.principal
    then gone
    else record gone { raw_closed = gone.raw_closed ++ c.engine_id ∷ [] }

-- `handleDisconnect`
unfoldable pub handle_disconnect : String → Gateway → Gateway
handle_disconnect id g = untrack (find (is_socket id) g.connections) id g

abbrev pub cleanup_all : List Connection → Gateway → Gateway
cleanup_all [] g = g
cleanup_all (c ∷ cs) g = cleanup_all cs (if c.tracked then cleanup_socket c.id g else g)

abbrev pub untracked : List Connection → List Connection
untracked [] = []
untracked (c ∷ cs) = record c { tracked = false } ∷ untracked cs

-- `onModuleDestroy`
unfoldable pub on_module_destroy : Gateway → Gateway
on_module_destroy g =
    let stopped =
      stop_polling (record g { live = false; poll_generation = g.poll_generation + 1 }) in
    let cleared = cleanup_all g.connections stopped in
    record cleared { connections = untracked cleared.connections }

abbrev pub overdue : String → Option Connection → Gateway → Gateway
overdue id none g = g
overdue id (some c) g = if c.deadline then disconnect_silent id g else g

-- the timer of the authentication
unfoldable pub on_deadline : String → Gateway → Gateway
on_deadline id g = overdue id (find (is_socket id) g.connections) g

abbrev pub is_over : ℕ → Option AccessTokenPrincipal → Bool
is_over now none = true
is_over now (some principal) = leb principal.exp now

abbrev pub expired : ℕ → Bool → String → Option Connection → Gateway → Gateway
expired now is_last id none g = g
expired now is_last id (some c) g =
    if c.expiry && (is_last || is_over now c.principal) then disconnect_silent id g else g

-- the timer of `armExpiry`: the last one disconnects, one before it is armed again
unfoldable pub on_expiry : ℕ → Bool → String → Gateway → Gateway
on_expiry now is_last id g = expired now is_last id (find (is_socket id) g.connections) g

-- the transport is gone: Socket.IO clears the rooms before the event `disconnect`
abbrev pub go_away : String → Gateway → Gateway
go_away id g = with_socket id closed g
