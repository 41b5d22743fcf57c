-- ===== src/Servers/Settles.antt =====
-- Where start, stop and restart leave the row when no other request touches it.
use minepanel_backend.Common.{
  ℕ, String, ◌≡◌, ◌≢◌, refl, subst, Bool, true, false, none, some, arith, ◌⊎◌, inl, inr, string_eq,
}
use minepanel_backend.Http.{Exception}
use minepanel_backend.Schema.{
  Db, ServerStatus, stopped, starting, running, stopping, error, server_status_eq,
}
use minepanel_backend.Effects.{Env, World, M, throw, ◌>>◌}
use minepanel_backend.Effects.Trace.{Traces}
use minepanel_backend.Effects.Triples.{
  Post, Triple, Triple-pure, Triple-throw, Triple-lift_ok, Triple-statement,
  Triple-locked_statement, Triple-bind, Triple-try_catch, Triple-weaken, Triple-read_only,
  Triple-given, Triple-either,
}
use minepanel_backend.Docker.Service.{HostInfo}
use minepanel_backend.Docker.Service.Writes.{docker_rules}
use minepanel_backend.Servers.Admission.{ResourceConfig}
use minepanel_backend.Servers.Statements.{ServerPrincipal, nonempty, take_lock, transition}
use minepanel_backend.Servers.Shared.{preflight}
use minepanel_backend.Servers.Held.{
  Held, Triple-transition, Triple-transition_in_tx, Triple-lost_transition,
}
use minepanel_backend.Servers.Run.{
  admit_start, start_server, graceful_stop_container, rcon_phase, sleep, stop_phase, stop_server,
  start_again, restart_server, after_failed_stop,
}
use minepanel_backend.Servers.Alone.{
  Alone, after_failed_start, Read, Triple-fail, Triple-claimed, Triple-run_start, Triple-load,
  Triple-in_state, Triple-container,
}

-- the states in which no request is under way
abbrev pub is_settled : ServerStatus → Bool
is_settled stopped = true
is_settled running = true
is_settled error = true
is_settled _ = false

-- The row has the container and is in such a state.
abbrev pub Settled : String → String → Db → Type 0
Settled id c db = (s : ServerStatus) × (is_settled s ≡ true) × Held id c s db

failed_start-is_settled : (e : Exception) → is_settled (after_failed_start e) ≡ true
failed_start-is_settled e = ground arith

failed_stop-is_settled : (e : Exception) → is_settled (after_failed_stop e) ≡ true
failed_stop-is_settled e = ground arith

false-true : false ≡ true → ⊥
false-true e = cc

module _ (env : Env) (id c : String) (full : nonempty (some c) ≡ some c)
    (alone : Alone env id c) where
  abbrev Rests : Exception → Db → Type 0
  Rests e db = Settled id c db

  -- an action that changes no table, at a settled or an unsettled row
  Triple-idle :
      {A : Type 0} (s : ServerStatus) (m : M A)
      → Traces env (λ db db'. db' ≡ db) m
      → Triple (Held id c s) m (λ _. Held id c s) (λ _. Held id c s)
  Triple-idle s m t = Triple-read_only env m t (alone.free s) (alone.locked s)

  Triple-preflight :
      (s : ServerStatus) (config : ResourceConfig) (message : String)
      → Triple (Held id c s) (preflight env config message) (λ _. Held id c s) (λ _. Held id c s)
  unfolding preflight
  Triple-preflight s config message = Triple-idle s _ (search docker_rules depth 9)

  Triple-admit_start :
      (s : ServerStatus) (memory : ℕ) (config : ResourceConfig) (host : HostInfo) (message : String)
      → Triple
          (Held id c s)
          (admit_start env id c memory config host s message)
          (λ o db. Held id c starting db × (o ≢ none))
          (λ _. Held id c s)
  unfolding admit_start take_lock
  Triple-admit_start s memory config host message =
      Triple-bind (λ _. Held id c s) _ _ (Triple-statement env _ (λ n db h. alone.free s n db h))
        λ _.
          Triple-bind (λ _. Held id c s) _ _
            (Triple-locked_statement env _ (λ n db h. alone.locked s n db h))
            λ current.
              Triple-bind (λ _. Held id c s) _ _ (Triple-lift_ok _ (λ a e db h. h) (λ e db h. h))
                λ _. Triple-transition_in_tx id c full env _ s starting (alone.locked s)

  at_rest :
      (s : ServerStatus)
      → is_settled s ≡ true
      → (e : Exception) (db : Db) → Held id c s db
      → Rests e db
  at_rest s calm e db h = (s, calm, h)

  Triple-start_server :
      (s : ServerStatus) (p : ServerPrincipal)
      → is_settled s ≡ true
      → Triple (Held id c s) (start_server env id p) (λ _. Held id c running) Rests
  unfolding start_server
  Triple-start_server s p calm =
      Triple-bind (Read env id c full alone s) _ _
        (Triple-weaken _ (Triple-load env id c full alone s p) (λ r db h. h) (at_rest s calm))
        λ row.
          Triple-bind (λ _. Read env id c full alone stopped row) _ _
            (Triple-weaken _ (Triple-in_state env id c full alone s stopped row _) (λ r db h. h)
              (at_rest s calm))
            λ _.
              Triple-bind (λ k db. Held id c stopped db × (k ≡ c)) _ _
                (Triple-weaken _ (Triple-container env id c full alone stopped row _) (λ r db h. h)
                  (at_rest stopped refl))
                λ k. Triple-given _ λ same. rw same (
                  Triple-bind (λ _. Held id c stopped) _ _
                    (Triple-lift_ok _ (λ a e db h. h) (λ e. at_rest stopped refl e))
                    λ config.
                      Triple-bind (λ _. Held id c stopped) _ _
                        (Triple-weaken _ (Triple-preflight stopped config _) (λ r db h. h)
                          (at_rest stopped refl))
                        λ host.
                          Triple-bind (λ o db. Held id c starting db × (o ≢ none)) _ _
                            (Triple-weaken _ (Triple-admit_start stopped _ config host _)
                              (λ r db h. h) (at_rest stopped refl))
                            λ o.
                              Triple-bind (λ _. Held id c starting) _ _
                                (Triple-claimed env id c full alone _ starting o _)
                                λ _.
                                  Triple-weaken _ (Triple-run_start env id c full alone)
                                    (λ r db h. h)
                                    (λ e.
                                      at_rest (after_failed_start e) (failed_start-is_settled e) e))

  Triple-graceful_stop :
      (seconds : ℕ)
      → Triple
          (Held id c stopping)
          (graceful_stop_container env c seconds)
          (λ _. Held id c stopping)
          (λ _. Held id c stopping)
  unfolding graceful_stop_container rcon_phase sleep
  Triple-graceful_stop seconds = Triple-idle stopping _ (search docker_rules depth 12)

  -- the container is stopped, and the row in STOPPING
  Triple-stop_phase :
      (s : ServerStatus) (p : ServerPrincipal)
      → is_settled s ≡ true
      → Triple (Held id c s) (stop_phase env id p) (λ k db. Held id c stopping db × (k.0 ≡ c)) Rests
  unfolding stop_phase
  Triple-stop_phase s p calm =
      Triple-bind (Read env id c full alone s) _ _
        (Triple-weaken _ (Triple-load env id c full alone s p) (λ r db h. h) (at_rest s calm))
        λ row.
          Triple-bind (λ _. Read env id c full alone running row) _ _
            (Triple-weaken _ (Triple-in_state env id c full alone s running row _) (λ r db h. h)
              (at_rest s calm))
            λ _.
              Triple-bind (λ k db. Held id c running db × (k ≡ c)) _ _
                (Triple-weaken _ (Triple-container env id c full alone running row _) (λ r db h. h)
                  (at_rest running refl))
                λ k. Triple-given _ λ same. rw same (
                  Triple-bind (λ _. Held id c running) _ _
                    (Triple-lift_ok _ (λ a e db h. h) (λ e. at_rest running refl e))
                    λ seconds.
                      Triple-bind (λ o db. Held id c stopping db × (o ≢ none)) _ _
                        (Triple-transition id c full env _ running stopping (alone.free running))
                        λ o.
                          Triple-bind (λ _. Held id c stopping) _ _
                            (Triple-claimed env id c full alone _ stopping o _)
                            λ _.
                              Triple-bind (λ _. Held id c stopping) _ _
                                (Triple-try_catch (λ _. Held id c stopping) _ _
                                  (Triple-graceful_stop seconds)
                                  λ e.
                                    Triple-fail env id c full alone _ Rests stopping
                                      (after_failed_stop e) e
                                      (at_rest (after_failed_stop e) (failed_stop-is_settled e) e))
                                λ _. Triple-pure _ (λ db h. (h, refl)))

  Triple-stop_server :
      (s : ServerStatus) (p : ServerPrincipal)
      → is_settled s ≡ true
      → Triple (Held id c s) (stop_server env id p) (λ _. Held id c stopped) Rests
  unfolding stop_server
  Triple-stop_server s p calm =
      Triple-bind (λ k db. Held id c stopping db × (k.0 ≡ c)) _ _ (Triple-stop_phase s p calm)
        λ claimed. Triple-given _ λ same. rw same (
          Triple-bind (λ o db. Held id c stopped db × (o ≢ none)) _ _
            (Triple-transition id c full env _ stopping stopped (alone.free stopping))
            λ o.
              Triple-bind (λ _. Held id c stopped) _ _
                (Triple-claimed env id c full alone _ stopped o _) λ row. Triple-pure _ (λ db h. h))

  -- a restart that failed after its stop: not yet claimed again, or settled
  abbrev Halted : Exception → Db → Type 0
  Halted e db = Held id c stopping db ⊎ Settled id c db

  halted : (e : Exception) (db : Db) → Held id c stopping db → Halted e db
  halted e db h = inl h

  Triple-start_again :
      (memory : ℕ)
      → Triple (Held id c stopping) (start_again env id c memory) (λ _. Held id c running) Halted
  unfolding start_again
  Triple-start_again memory =
      Triple-bind (λ _. Held id c stopping) _ _ (Triple-lift_ok _ (λ a e db h. h) halted)
        λ config.
          Triple-bind (λ _. Held id c stopping) _ _
            (Triple-weaken _ (Triple-preflight stopping config _) (λ r db h. h) halted)
            λ host.
              Triple-bind (λ o db. Held id c starting db × (o ≢ none)) _ _
                (Triple-weaken _ (Triple-admit_start stopping memory config host _) (λ r db h. h)
                  halted)
                λ o.
                  Triple-bind (λ _. Held id c starting) _ _
                    (Triple-claimed env id c full alone _ starting o _)
                    λ _.
                      Triple-weaken _ (Triple-run_start env id c full alone) (λ r db h. h)
                        (λ e db h.
                          inr (at_rest (after_failed_start e) (failed_start-is_settled e) e db h))

  settled-stopping : (s : ServerStatus) → is_settled s ≡ true → s ≢ stopping
  settled-stopping s calm e = false-true (subst (λ x. is_settled x ≡ true) e calm)

  Triple-settle_again :
      {A : Type 0} (e : Exception)
      → Triple {A = A}
          (Halted e)
          (transition env id stopping stopped (some c) none >> throw e)
          (λ _. Held id c running)
          Rests
  Triple-settle_again e =
      Triple-either _
        (Triple-fail env id c full alone _ Rests stopping stopped e (at_rest stopped refl e))
        (record {
          at = λ w h.
              let (s, calm, held) = h in
              (Triple-bind (λ o. Held id c s) _ _
                  (Triple-lost_transition id c full env _ s stopping stopped
                    (settled-stopping s calm) (alone.free s))
                  λ o. Triple-throw e (at_rest s calm e)).at
                w held;
        })

  Triple-restart_server :
      (s : ServerStatus) (p : ServerPrincipal)
      → is_settled s ≡ true
      → Triple (Held id c s) (restart_server env id p) (λ _. Held id c running) Rests
  unfolding restart_server
  Triple-restart_server s p calm =
      Triple-bind (λ k db. Held id c stopping db × (k.0 ≡ c)) _ _ (Triple-stop_phase s p calm)
        λ claimed. Triple-given _ λ same. rw same (
          Triple-try_catch Halted _ _ (Triple-start_again (claimed.1).memory_limit_mb)
            λ e. Triple-settle_again e)

-- Nobody else touches the row of the server, which has a container and is STOPPED, RUNNING or ERROR.
-- Then `startServer` leaves the row RUNNING when it succeeds; when it throws, it leaves it STOPPED,
-- RUNNING or ERROR with its container, never in STARTING, whatever the daemon and the host answer.
pub start_server-Settled :
    (env : Env) (id c : String)
    → nonempty (some c) ≡ some c
    → Alone env id c
    → (s : ServerStatus) (p : ServerPrincipal) → is_settled s ≡ true
    → (w : World) → Held id c s w.db
    → Post
        (λ _. Held id c running)
        (λ _. Settled id c)
        (start_server env id p w).0
        (start_server env id p w).1.db
start_server-Settled env id c full alone s p calm w h =
    (Triple-start_server env id c full alone s p calm).at w h

-- Under the same conditions `stopServer` leaves the row STOPPED when it succeeds, and STOPPED,
-- RUNNING or ERROR with its container when it throws, never in STOPPING.
pub stop_server-Settled :
    (env : Env) (id c : String)
    → nonempty (some c) ≡ some c
    → Alone env id c
    → (s : ServerStatus) (p : ServerPrincipal) → is_settled s ≡ true
    → (w : World) → Held id c s w.db
    → Post
        (λ _. Held id c stopped)
        (λ _. Settled id c)
        (stop_server env id p w).0
        (stop_server env id p w).1.db
stop_server-Settled env id c full alone s p calm w h =
    (Triple-stop_server env id c full alone s p calm).at w h

-- Under the same conditions `restartServer` leaves the row RUNNING when it succeeds, and STOPPED,
-- RUNNING or ERROR with its container when it throws, never in STOPPING or STARTING.
pub restart_server-Settled :
    (env : Env) (id c : String)
    → nonempty (some c) ≡ some c
    → Alone env id c
    → (s : ServerStatus) (p : ServerPrincipal) → is_settled s ≡ true
    → (w : World) → Held id c s w.db
    → Post
        (λ _. Held id c running)
        (λ _. Settled id c)
        (restart_server env id p w).0
        (restart_server env id p w).1.db
restart_server-Settled env id c full alone s p calm w h =
    (Triple-restart_server env id c full alone s p calm).at w h
