-- ===== src/Gateway/Events.antt =====
-- src/gateway/events.gateway.ts: the sockets, their authentication, and who gets the metrics.
pub mod Tokens
pub mod Polling
pub mod Handlers
pub mod Population
pub mod Turns
pub mod Arrival
pub mod Admission
pub mod Reachable
mod Tests
use minepanel_backend.Common.{
  ℕ, ◌+◌, ◌-◌, String, Bool, true, false, not, ◌||◌, ◌&&◌, Option, none, some, is_some, List, [],
  ◌∷◌, map, filter, find, leb, ◌==◌, if◌then◌else◌, string_eq, nat_eq,
}
use minepanel_backend.Schema.{Role, admin, role_eq}
use minepanel_backend.Auth.AccessToken.{AccessTokenPrincipal}
use minepanel_backend.Gateway.Reservations.{Reservations, claim, release}
use minepanel_backend.Gateway.Events.Tokens.{CookieParseResult, token, invalid, absent}

pub data AuthStatus : Type 0 where
  waiting verifying authenticated : AuthStatus

-- A socket with what the gateway keeps in its `data`: whether its deadline, its listener and its
-- expiry timer are set, and whether it is connected and in the room `admin:metrics`.
pub record Connection : Type 0 where
  pub id : String
  pub engine_id : String
  pub status : AuthStatus
  pub deadline : Bool
  pub listener : Bool
  pub expiry : Bool
  pub principal : Option AccessTokenPrincipal
  pub access_token : Option String
  pub connected : Bool
  pub in_room : Bool
  pub tracked : Bool

-- where a call of `tick` waits: for the token of the first group of sockets, or for the snapshot
pub data Stage : Type 0 where
  first_check last_check : List (String × List String) → Stage
  collecting : Stage

-- a call of `tick` that has not returned
pub record Poll : Type 0 where
  pub generation : ℕ
  pub immediate : Bool
  pub stage : Stage

-- The sockets are found by their ids, the first one first; `tracked` are those in the gateway's own
-- map. `polls` is the call of `tick` that has not returned, if any, and `scheduled` the number of
-- calls that a timer makes next. `sent` are the sockets that a snapshot went to, `raw_closed` the
-- transports closed.
pub record Gateway : Type 0 where
  pub connections : List Connection
  pub admin_count : ℕ
  pub poll_generation : ℕ
  pub in_flight : Bool
  pub pending_immediate : Bool
  pub live : Bool
  pub polling : Bool
  pub cached_at : Option ℕ
  pub polls : List Poll
  pub scheduled : ℕ
  pub sent : List String
  pub raw_closed : List String
  pub reservations : Reservations

abbrev pub cache_ttl_ms : ℕ
cache_ttl_ms = 10000

abbrev pub is_socket : String → Connection → Bool
is_socket id c = c.id == id

-- a change of the object that a handler holds
abbrev pub change : String → (Connection → Connection) → List Connection → List Connection
change id f [] = []
change id f (c ∷ cs) = if is_socket id c then f c ∷ cs else c ∷ change id f cs

abbrev pub with_socket : String → (Connection → Connection) → Gateway → Gateway
with_socket id f g = record g { connections = change id f g.connections }

unfoldable pub stop_polling : Gateway → Gateway
stop_polling g = record g {
  polling = false;
  cached_at = none;
  poll_generation = g.poll_generation + 1;
  pending_immediate = false;
}

-- `adminCount` goes down, and with the last one the polling stops
unfoldable pub leave_admins : Gateway → Gateway
unfolding stop_polling
leave_admins g =
    let fewer = record g { admin_count = g.admin_count - 1 } in
    if fewer.admin_count == 0 then stop_polling fewer else fewer

abbrev pub release_engine : String → Gateway → Gateway
release_engine engine_id g =
    if engine_id == ""
    then g
    else record g { reservations = (release engine_id false g.reservations).1 }

abbrev pub cleaned : Connection → Connection
cleaned c = record c {
  deadline = false;
  listener = false;
  expiry = false;
  principal = none;
  in_room = false;
}

abbrev pub leave_if : Bool → Gateway → Gateway
leave_if true g = leave_admins g
leave_if false g = g

abbrev pub cleanup_found : String → Option Connection → Gateway → Gateway
cleanup_found id none g = g
cleanup_found id (some c) g =
    release_engine c.engine_id (leave_if (is_some c.principal) (with_socket id cleaned g))

-- `cleanupSocket`
unfoldable pub cleanup_socket : String → Gateway → Gateway
unfolding leave_admins
cleanup_socket id g = cleanup_found id (find (is_socket id) g.connections) g

-- `socket.disconnect(true)`: the rooms are left at once, and `disconnect` is an event of its own
abbrev pub closed : Connection → Connection
closed c = record c { connected = false; in_room = false }

-- `disconnectSilent`
unfoldable pub disconnect_silent : String → Gateway → Gateway
unfolding cleanup_socket
disconnect_silent id g = with_socket id closed (cleanup_socket id g)

abbrev pub is_eligible : AccessTokenPrincipal → Bool
is_eligible p = p.role == admin && not p.temporary_auth && not p.must_change_password
