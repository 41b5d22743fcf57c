-- ===== src/Gateway/Events/Arrival.antt =====
-- src/gateway/events.gateway.ts: a socket that connects, and what it says.
use minepanel_backend.Common.{
  ℕ, ◌+◌, String, ◌≡◌, refl, sym, ◌∙◌, subst, Bool, true, false, not, Option, none, some, is_some,
  List, ◌∷◌, find, Bool-cases, true-false, some-injective, ◌⊎◌, inl, inr, ==-refl, string_eq,
  nat_eq, arith,
}
use minepanel_backend.Auth.AccessToken.{AccessTokenPrincipal}
use minepanel_backend.Gateway.Reservations.{claim}
use minepanel_backend.Gateway.Events.{
  Connection, AuthStatus, waiting, verifying, authenticated, Gateway, is_socket, change,
  with_socket,
}
use minepanel_backend.Gateway.Events.Tokens.{
  CookieParseResult, token, invalid, absent, CookieHeader, AuthEventValue, parse_access_cookie,
  parse_auth_payload,
}
use minepanel_backend.Gateway.Events.Population.{
  standing, is_admin, Orderly, with_socket-Orderly, disconnect_silent-Orderly, Stands-find,
}
use minepanel_backend.Gateway.Events.Turns.{if-Orderly}
use minepanel_backend.Gateway.Events.Handlers.{
  new_connection, by_cookie, handle_connection, is_waiting, by_payload, heard,
}

-- a socket that is no administrator may change its status
status-keeps :
    (principal : Option AccessTokenPrincipal) (status status' : AuthStatus) (in_room : Bool)
    → is_some principal ≡ false
    → standing principal status in_room ≡ true
    → standing principal status' in_room ≡ true
status-keeps none status status' in_room out h = h
status-keeps (some p) status status' in_room out h = absurd (true-false out)

pub unverified :
    (principal : Option AccessTokenPrincipal) (status : AuthStatus) (in_room : Bool)
    → standing principal status in_room ≡ true
    → (is_waiting status ≡ true) ⊎ (status ≡ verifying)
    → is_some principal ≡ false
unverified none status in_room h which = refl
unverified (some p) waiting in_room h which = absurd (true-false (sym h))
unverified (some p) verifying in_room h which = absurd (true-false (sym h))
unverified (some p) authenticated in_room h (inl e) = absurd (true-false (sym e))
unverified (some p) authenticated in_room h (inr e) = cc

set_verifying : Connection → Connection
set_verifying c = record c { status = verifying }

verifying-Orderly :
    (id : String) (g : Gateway)
    → ((c : Connection) → find (is_socket id) g.connections ≡ some c → is_admin c ≡ false)
    → Orderly g
    → Orderly (with_socket id set_verifying g)
unfolding set_verifying
verifying-Orderly id g out h =
    with_socket-Orderly id set_verifying g
      (λ c e k. (status-keeps c.principal c.status verifying c.in_room (out c e) k, refl)) h

by_cookie-Orderly :
    (id : String) (result : CookieParseResult) (g : Gateway)
    → ((c : Connection) → find (is_socket id) g.connections ≡ some c → is_admin c ≡ false)
    → Orderly g
    → Orderly (by_cookie id result g)
unfolding set_verifying
by_cookie-Orderly id invalid g out h = disconnect_silent-Orderly id g h
by_cookie-Orderly id (token t) g out h = verifying-Orderly id g out h
by_cookie-Orderly id absent g out h = with_socket-Orderly id _ g (λ c e k. (k, refl)) h

head-change :
    (id : String) (f : Connection → Connection) (d : Connection) (cs : List Connection)
    (c : Connection)
    → is_socket id d ≡ true
    → is_socket id (f d) ≡ true
    → find (is_socket id) (change id f (d ∷ cs)) ≡ some c
    → f d ≡ c
head-change id f d cs c hit same e =
    let first : find (is_socket id) (f d ∷ cs) ≡ some c = rw hit at e in
    some-injective (rw same at first)

none_more : (a n : ℕ) → a ≡ n → a ≡ 0 + n
none_more a n e = omega (arith, e)

pub handle_connection-Orderly :
    (decode : String → Option String) (id engine_id : String) (header : CookieHeader) (g : Gateway)
    → Orderly g
    → Orderly (handle_connection decode id engine_id header g)
unfolding handle_connection
handle_connection-Orderly decode id engine_id header g h =
    let (claimed, reservations) = claim engine_id g.reservations in
    let known : Gateway = record g {
      connections = new_connection id engine_id ∷ g.connections;
      reservations = reservations;
    } in
    let joined : Orderly known = record {
      counted = none_more _ _ h.counted;
      paced = h.paced;
      members = (refl, h.members);
    } in
    if-Orderly claimed _ _
      (by_cookie-Orderly id (parse_access_cookie decode header)
        (with_socket id (λ c. record c { deadline = true }) known)
        (λ c e.
          subst (λ x. is_admin x ≡ false)
            (head-change id (λ x. record x { deadline = true }) (new_connection id engine_id)
              g.connections c (==-refl id) (==-refl id) e)
            refl)
        (with_socket-Orderly id (λ c. record c { deadline = true }) known (λ c e k. (k, refl))
          joined))
      (disconnect_silent-Orderly id known joined)

by_payload-Orderly :
    (id : String) (result : CookieParseResult) (g : Gateway)
    → Orderly g
    → Orderly (by_payload id result g)
by_payload-Orderly id (token t) g h = h
by_payload-Orderly id invalid g h = disconnect_silent-Orderly id g h
by_payload-Orderly id absent g h = disconnect_silent-Orderly id g h

pub heard-Orderly :
    (id : String) (payload : AuthEventValue) (found : Option Connection) (g : Gateway)
    → find (is_socket id) g.connections ≡ found
    → Orderly g
    → Orderly (heard id payload found g)
unfolding set_verifying
heard-Orderly id payload none g e h = h
heard-Orderly id payload (some c) g e h =
    if-Orderly (not c.listener) _ _ h (elim (Bool-cases (is_waiting c.status)) [
      | inl waits ↦ rw waits (
          by_payload-Orderly id (parse_auth_payload payload) _ (
            verifying-Orderly id g
              (λ d found.
                subst (λ x. is_admin x ≡ false) (some-injective (sym e ∙ found))
                  (unverified c.principal c.status c.in_room
                    (Stands-find id g.connections c e h.members) (inl waits)))
              h))
      | inr knows ↦ rw knows (disconnect_silent-Orderly id g h)
    ])
