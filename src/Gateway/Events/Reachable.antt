-- ===== src/Gateway/Events/Reachable.antt =====
-- src/gateway/events.gateway.ts: the events in any order, from the start of the module.
use minepanel_backend.Common.{
  ℕ, ◌+◌, String, ◌≡◌, refl, sym, ap, ◌∙◌, subst, Bool, false, ◌||◌, ◌&&◌, Option, none, some,
  is_some, List, [], ◌∷◌, find, All, ltb, string_eq, nat_eq,
}
use minepanel_backend.Auth.AccessToken.{AccessTokenPrincipal}
use minepanel_backend.Gateway.Events.{
  Connection, verifying, Gateway, is_socket, stop_polling, cleanup_socket, closed,
  disconnect_silent,
}
use minepanel_backend.Gateway.Events.Tokens.{CookieHeader, AuthEventValue}
use minepanel_backend.Gateway.Events.Population.{
  Stands, is_admin, one_if, count_admins, Orderly, with_socket-Orderly, cleanup_socket-Orderly,
  disconnect_silent-Orderly, closed-keeps, and_none,
}
use minepanel_backend.Gateway.Events.Arrival.{handle_connection-Orderly, heard-Orderly}
use minepanel_backend.Gateway.Events.Admission.{on_auth_success-Orderly}
use minepanel_backend.Gateway.Events.Turns.{
  if-Orderly, tick-Orderly, on_revalidated-Orderly, on_collected-Orderly, run_scheduled-Orderly,
}
use minepanel_backend.Gateway.Events.Polling.{tick, on_revalidated, on_collected, run_scheduled}
use minepanel_backend.Gateway.Events.Handlers.{
  handle_connection, on_auth, on_auth_success, untrack, handle_disconnect, cleanup_all, untracked,
  on_module_destroy, overdue, on_deadline, expired, is_over, on_expiry, go_away,
}

untrack-Orderly :
    (found : Option Connection) (id : String) (g : Gateway)
    → Orderly g
    → Orderly (untrack found id g)
untrack-Orderly none id g h = h
untrack-Orderly (some c) id g h =
    let gone =
      with_socket-Orderly id (λ x. record (closed x) { tracked = false }) (cleanup_socket id g)
        (λ d e k. closed-keeps d k) (cleanup_socket-Orderly id g h) in
    if-Orderly (is_some c.principal) _ _ gone
      (record { counted = gone.counted; paced = gone.paced; members = gone.members })

overdue-Orderly :
    (id : String) (found : Option Connection) (g : Gateway)
    → Orderly g
    → Orderly (overdue id found g)
overdue-Orderly id none g h = h
overdue-Orderly id (some c) g h = if-Orderly c.deadline _ _ (disconnect_silent-Orderly id g h) h

expired-Orderly :
    (now : ℕ) (is_last : Bool) (id : String) (found : Option Connection) (g : Gateway)
    → Orderly g
    → Orderly (expired now is_last id found g)
expired-Orderly now is_last id none g h = h
expired-Orderly now is_last id (some c) g h =
    if-Orderly (c.expiry && (is_last || is_over now c.principal)) _ _
      (disconnect_silent-Orderly id g h) h

handle_disconnect-Orderly :
    (id : String) (g : Gateway) → Orderly g → Orderly (handle_disconnect id g)
unfolding handle_disconnect
handle_disconnect-Orderly id g h = untrack-Orderly (find (is_socket id) g.connections) id g h

on_auth-Orderly :
    (id : String) (payload : AuthEventValue) (g : Gateway)
    → Orderly g
    → Orderly (on_auth id payload g)
unfolding on_auth
on_auth-Orderly id payload g h =
    heard-Orderly id payload (find (is_socket id) g.connections) g refl h

cleanup_all-Orderly : (cs : List Connection) (g : Gateway) → Orderly g → Orderly (cleanup_all cs g)
cleanup_all-Orderly [] g h = h
cleanup_all-Orderly (c ∷ cs) g h =
    cleanup_all-Orderly cs _ (if-Orderly c.tracked _ _ (cleanup_socket-Orderly c.id g h) h)

count-untracked : (cs : List Connection) → count_admins (untracked cs) ≡ count_admins cs
count-untracked [] = refl
count-untracked (c ∷ cs) = ap (λ n. one_if (is_admin c) + n) (count-untracked cs)

All-untracked : (cs : List Connection) → All Stands cs → All Stands (untracked cs)
All-untracked [] h = tt
All-untracked (c ∷ cs) h = (h.0, All-untracked cs h.1)

untracked-Orderly :
    (g : Gateway) → Orderly g → Orderly (record g { connections = untracked g.connections })
untracked-Orderly g h = record {
  counted = h.counted ∙ sym (count-untracked g.connections);
  paced = h.paced;
  members = All-untracked g.connections h.members;
}

on_module_destroy-Orderly : (g : Gateway) → Orderly g → Orderly (on_module_destroy g)
unfolding on_module_destroy stop_polling
on_module_destroy-Orderly g h = untracked-Orderly _ (
    cleanup_all-Orderly g.connections _
      (record { counted = h.counted; paced = refl; members = h.members }))

on_deadline-Orderly : (id : String) (g : Gateway) → Orderly g → Orderly (on_deadline id g)
unfolding on_deadline
on_deadline-Orderly id g h = overdue-Orderly id (find (is_socket id) g.connections) g h

on_expiry-Orderly :
    (now : ℕ) (is_last : Bool) (id : String) (g : Gateway)
    → Orderly g
    → Orderly (on_expiry now is_last id g)
unfolding on_expiry
on_expiry-Orderly now is_last id g h =
    expired-Orderly now is_last id (find (is_socket id) g.connections) g h

go_away-Orderly : (id : String) (g : Gateway) → Orderly g → Orderly (go_away id g)
go_away-Orderly id g h = with_socket-Orderly id closed g (λ c e k. closed-keeps c k) h

-- One turn of the event loop. The promise of a token is settled for a socket that waits for it; all
-- else happens at any time.
pub data Turn (decode : String → Option String) (g : Gateway) : Gateway → Type 0 where
  connects :
      (id engine_id : String) (header : CookieHeader)
      → Turn decode g (handle_connection decode id engine_id header g)
  says : (id : String) (payload : AuthEventValue) → Turn decode g (on_auth id payload g)
  is_verified :
      (now : ℕ) (id : String) (p : AccessTokenPrincipal) (t : String) (c : Connection)
      → find (is_socket id) g.connections ≡ some c
      → c.status ≡ verifying
      → Turn decode g (on_auth_success now id p t g)
  is_rejected : (id : String) → Turn decode g (disconnect_silent id g)
  misses_deadline : (id : String) → Turn decode g (on_deadline id g)
  expires : (now : ℕ) (is_last : Bool) (id : String) → Turn decode g (on_expiry now is_last id g)
  goes_away : (id : String) → Turn decode g (go_away id g)
  disconnects : (id : String) → Turn decode g (handle_disconnect id g)
  ticks : Turn decode g (tick false g)
  ticks_again : Turn decode g (run_scheduled g)
  is_revalidated :
      (now : ℕ) (answer : Option AccessTokenPrincipal) → Turn decode g (on_revalidated now answer g)
  is_collected : (has_snapshot : Bool) → Turn decode g (on_collected has_snapshot g)
  is_destroyed : Turn decode g (on_module_destroy g)

-- what can come of a gateway, turn by turn
pub data Becomes (decode : String → Option String) (g : Gateway) : Gateway → Type 0 where
  stays : Becomes decode g g
  turns : {h k : Gateway} → Becomes decode g h → Turn decode h k → Becomes decode g k

Turn-Orderly :
    {decode : String → Option String} {g h : Gateway} → Turn decode g h → Orderly g → Orderly h
Turn-Orderly {decode = decode} {g = g} (connects id engine_id header) o =
    handle_connection-Orderly decode id engine_id header g o
Turn-Orderly {g = g} (says id payload) o = on_auth-Orderly id payload g o
Turn-Orderly {g = g} (is_verified now id p t c e waits) o =
    on_auth_success-Orderly now id p t g c e waits o
Turn-Orderly {g = g} (is_rejected id) o = disconnect_silent-Orderly id g o
Turn-Orderly {g = g} (misses_deadline id) o = on_deadline-Orderly id g o
Turn-Orderly {g = g} (expires now is_last id) o = on_expiry-Orderly now is_last id g o
Turn-Orderly {g = g} (goes_away id) o = go_away-Orderly id g o
Turn-Orderly {g = g} (disconnects id) o = handle_disconnect-Orderly id g o
Turn-Orderly {g = g} ticks o = tick-Orderly false g o
Turn-Orderly {g = g} ticks_again o = run_scheduled-Orderly g o
Turn-Orderly {g = g} (is_revalidated now answer) o = on_revalidated-Orderly now answer g o
Turn-Orderly {g = g} (is_collected has_snapshot) o = on_collected-Orderly has_snapshot g o
Turn-Orderly {g = g} is_destroyed o = on_module_destroy-Orderly g o

-- Whatever happens in whatever order: from a gateway without sockets, `adminCount` is always the
-- number of sockets with a principal, the interval runs exactly while the module lives and there is
-- one, and whoever is in the room of the metrics is an authenticated administrator with neither a
-- temporary sign-in nor a password to change.
pub Becomes-Orderly :
    (decode : String → Option String) (g h : Gateway)
    → g.connections ≡ []
    → g.admin_count ≡ 0
    → g.polling ≡ false
    → Becomes decode g h
    → Orderly h
Becomes-Orderly decode g h empty nobody quiet stays = record {
  counted = nobody ∙ ap count_admins (sym empty);
  paced = quiet ∙ sym (ap (λ n. g.live && ltb 0 n) nobody ∙ and_none g.live);
  members = subst (All Stands) (sym empty) tt;
}
Becomes-Orderly decode g h empty nobody quiet (turns before turn) =
    Turn-Orderly turn (Becomes-Orderly decode g _ empty nobody quiet before)
