-- ===== src/Gateway/Events/Admission.antt =====
-- src/gateway/events.gateway.ts: a socket whose token was verified joins the room.
use minepanel_backend.Common.{
  ℕ, suc, ◌+◌, ◌-◌, String, ◌≡◌, refl, sym, ap, ◌∙◌, subst, Bool, true, false, not, ◌&&◌, Option,
  none, some, List, [], ◌∷◌, find, All, Bool-cases, some-injective, inl, inr, leb, ltb, ◌==◌,
  string_eq, nat_eq, arith,
}
use minepanel_backend.Auth.AccessToken.{AccessTokenPrincipal}
use minepanel_backend.Gateway.Reservations.{release}
use minepanel_backend.Gateway.Events.{
  Connection, verifying, authenticated, Gateway, cache_ttl_ms, is_socket, change, with_socket,
  cleanup_socket, closed, disconnect_silent, is_eligible,
}
use minepanel_backend.Gateway.Events.Population.{
  Stands, is_admin, one_if, count_admins, Orderly, Orderly-paced, count-change, All-change,
  with_socket-Orderly, disconnect_silent-Orderly, cleanup-admin, closed-keeps, Stands-find,
}
use minepanel_backend.Gateway.Events.Arrival.{unverified}
use minepanel_backend.Gateway.Events.Turns.{if-Orderly, if-split, tick-Orderly}
use minepanel_backend.Gateway.Events.Handlers.{
  start_polling, emit_if_fresh, admit, accepted_socket, on_auth_success,
}

-- the gateway after a socket has joined the room, before the polling is started
record Joined (g : Gateway) : Type 0 where
  others : ℕ
  counted : g.admin_count ≡ suc others
  of_room : g.admin_count ≡ count_admins g.connections
  alive : g.live ≡ true
  members : All Stands g.connections

paced-live : (b : Bool) (n k : ℕ) → b ≡ true → n ≡ suc k → true ≡ (b && ltb 0 n)
paced-live true n k e h = let more : ltb 0 n ≡ true = ground (arith, h) in sym more
paced-live false n k e h = cc

start_polling-Orderly : (g : Gateway) → Joined g → Orderly (start_polling g)
start_polling-Orderly g j =
    if-split g.polling _ _
      (λ on. record {
        counted = j.of_room;
        paced = on ∙ paced-live g.live _ j.others j.alive j.counted;
        members = j.members;
      })
      (λ off.
        let started : Orderly (record g { polling = true }) = (record {
          counted = j.of_room;
          paced = paced-live g.live _ j.others j.alive j.counted;
          members = j.members;
        }) in
        if-Orderly g.in_flight _ _
          (record { counted = started.counted; paced = started.paced; members = started.members })
          (tick-Orderly true _ started))

emit-Joined :
    (now : ℕ) (id : String) (at : Option ℕ) (g : Gateway)
    → Joined g
    → Joined (emit_if_fresh now id at g)
emit-Joined now id none g j = j
emit-Joined now id (some t) g j = elim (Bool-cases (ltb (now - t) cache_ttl_ms)) [
  | inl fresh ↦ rw fresh (record {
    others = j.others;
    counted = j.counted;
    of_room = j.of_room;
    alive = j.alive;
    members = j.members;
  })
  | inr stale ↦ rw stale j
]

find-change :
    (id : String) (f : Connection → Connection) (cs : List Connection) (c : Connection)
    → ((d : Connection) → is_socket id (f d) ≡ is_socket id d)
    → find (is_socket id) cs ≡ some c
    → find (is_socket id) (change id f cs) ≡ some (f c)
find-change id f [] c same e = cc
find-change id f (d ∷ cs) c same e = elim (Bool-cases (is_socket id d)) [
  | inl hit ↦ rw (hit, same d ∙ hit) (ap (λ x. some (f x)) (some-injective (rw hit at e)))
  | inr miss ↦ rw (miss, miss) (find-change id f cs c same (rw miss at e))
]

one_more : (n m a : ℕ) → n + 0 ≡ m + 1 → a ≡ m → a + 1 ≡ n
one_more n m a e h = omega (arith, e, h)

cancel : (n m k : ℕ) → n + k ≡ m + k → n ≡ m
cancel n m k e = omega (arith, e)

two_less : (a n : ℕ) → a + 1 ≡ suc (suc n) → a ≡ suc n
two_less a n e = omega (arith, e)

plus_one : (a : ℕ) → a + 1 ≡ suc a
plus_one a = omega arith

module _ (now : ℕ) (id : String) (p : AccessTokenPrincipal) (t : String) where
  abbrev grant : Connection → Connection
  grant c = record c {
    status = authenticated;
    deadline = false;
    principal = some p;
    access_token = some t;
    in_room = true;
  }

  abbrev arm : Connection → Connection
  arm c = record c { expiry = true }

  abbrev joined : Gateway → Gateway
  joined g = record (with_socket id grant g) { admin_count = g.admin_count + 1 }

  joined-count :
      (g : Gateway) (c : Connection)
      → find (is_socket id) g.connections ≡ some c
      → is_admin c ≡ false
      → Orderly g
      → g.admin_count + 1 ≡ count_admins (change id grant g.connections)
  joined-count g c e out h =
      let counts = count-change id grant g.connections c e in
      one_more _ _ _
        (subst
          (λ b.
            count_admins (change id grant g.connections) + one_if b
            ≡ count_admins g.connections + 1)
          out counts)
        h.counted

  arm-count :
      (cs : List Connection) (c : Connection)
      → find (is_socket id) cs ≡ some c
      → count_admins (change id arm cs) ≡ count_admins cs
  arm-count cs c e = cancel _ _ _ (count-change id arm cs c e)

  admit-Orderly :
      (g : Gateway) (c : Connection)
      → find (is_socket id) g.connections ≡ some c
      → is_admin c ≡ false
      → is_eligible p ≡ true
      → g.live ≡ true
      → Orderly g
      → Orderly (admit now id p t g)
  unfolding admit disconnect_silent
  admit-Orderly g c e out eligible alive h =
      let counts = joined-count g c e out h in
      let found = find-change id grant g.connections c (λ d. refl) e in
      let members = All-change id grant g.connections c e eligible h.members in
      if-Orderly (leb p.exp now) _ _
        (with_socket-Orderly id closed (cleanup_socket id (joined g))
          (λ d k stands. closed-keeps d stands)
          (cleanup-admin id (joined g) (grant c) found refl counts
            (λ n k. Orderly-paced g n h (two_less _ _ k)) members))
        (start_polling-Orderly _ (
          emit-Joined now id (joined g).cached_at (with_socket id arm (joined g)) (record {
            others = g.admin_count;
            counted = plus_one g.admin_count;
            of_room = counts ∙ sym (arm-count (change id grant g.connections) (grant c) found);
            alive = alive;
            members =
                All-change id arm (change id grant g.connections) (grant c) found eligible members;
          })))

  accepted_socket-Orderly :
      (g : Gateway) (c : Connection)
      → find (is_socket id) g.connections ≡ some c
      → is_admin c ≡ false
      → g.live ≡ true
      → Orderly g
      → Orderly (accepted_socket now id p t c g)
  accepted_socket-Orderly g c e out alive h = if-Orderly (not c.connected) _ _ h (
      if-split (is_eligible p) _ _ (λ eligible. admit-Orderly g c e out eligible alive h)
        (λ no. with_socket-Orderly id _ g (λ d k stands. closed-keeps d stands) h))

  pub on_auth_success-Orderly :
      (g : Gateway) (c : Connection)
      → find (is_socket id) g.connections ≡ some c
      → c.status ≡ verifying
      → Orderly g
      → Orderly (on_auth_success now id p t g)
  unfolding on_auth_success
  on_auth_success-Orderly g c e waits h =
      let out =
        unverified c.principal c.status c.in_room (Stands-find id g.connections c e h.members)
          (inr waits) in
      rw e (
        if-split g.live _ _
          (λ alive. if-Orderly (c.engine_id == "") _ _ (disconnect_silent-Orderly id g h) (
            if-Orderly (release c.engine_id false g.reservations).0 _ _
              (accepted_socket-Orderly
                (record g { reservations = (release c.engine_id false g.reservations).1 }) c e out
                alive (record { counted = h.counted; paced = h.paced; members = h.members }))
              (disconnect_silent-Orderly id g h)))
          (λ dead. h))
