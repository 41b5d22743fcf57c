-- ===== src/Servers/Graph/Reach.antt =====
-- What every lifecycle request writes, and the invariant that follows.
use minepanel_backend.Common.{ℕ, String, ◌≡◌, ◌≢◌, refl, subst, Option, none, true, List, All}
use minepanel_backend.Schema.{Db, Server}
use minepanel_backend.Effects.{Env, World}
use minepanel_backend.Effects.Trace.{
  Traces, Traces-bind, Traces-pure, Traces-or_throw, Trace-invariant,
}
use minepanel_backend.Servers.Statements.{ServerPrincipal}
use minepanel_backend.Servers.Controller.{
  LifecycleRequest, create, start, stop, restart, delete, serve, handle,
}
use minepanel_backend.Servers.Graph.{
  needs_container, RowsStep, nil, same, moved, removed, inserted, LifecycleStep,
}
use minepanel_backend.Servers.Graph.Writes.{false-true}
use minepanel_backend.Servers.Graph.Requests.{
  Traces-start_server, Traces-stop_server, Traces-restart_server, Traces-delete_server,
}
use minepanel_backend.Servers.Graph.Creation.{HasContainerIds, Drawn, Traces-create_server}

-- the rows that a request may touch: the one that it names, and for a creation one under an id that
-- the request has drawn itself
abbrev pub Target : Env → LifecycleRequest → String → Type 0
Target env (create dto) = Drawn env
Target env (start id) = λ x. x ≡ id
Target env (stop id) = λ x. x ≡ id
Target env (restart id) = λ x. x ≡ id
Target env (delete id) = λ x. x ≡ id

serve-LifecycleStep :
    (env : Env)
    → HasContainerIds env
    → (request : LifecycleRequest) (principal : ServerPrincipal)
    → Traces env (LifecycleStep (Target env request)) (serve env request principal)
unfolding serve
serve-LifecycleStep env ids (create dto) principal =
    Traces-bind _ _ (Traces-create_server ids dto principal) λ row. Traces-pure _
serve-LifecycleStep env ids (start id) principal =
    Traces-bind _ _ (Traces-start_server id principal refl) λ row. Traces-pure _
serve-LifecycleStep env ids (stop id) principal =
    Traces-bind _ _ (Traces-stop_server id principal refl) λ row. Traces-pure _
serve-LifecycleStep env ids (restart id) principal =
    Traces-bind _ _ (Traces-restart_server id principal refl) λ row. Traces-pure _
serve-LifecycleStep env ids (delete id) principal =
    Traces-bind _ _ (Traces-delete_server id principal refl) λ _. Traces-pure _

-- Whatever the other requests, the daemon and the configuration do, each database write of a
-- create, start, stop, restart or delete request, failing or not, is one step of the documented
-- state machine: rows move along its arrows and are deleted in CREATING or STOPPING alone, a row
-- that enters STARTING or RUNNING has a container id, only the row of the request is touched, for a
-- create a row under an id that the request has drawn, and all settings of the rows and all other tables stay. Docker's container ids
-- are taken to be non-empty.
pub handle-LifecycleStep :
    (env : Env)
    → HasContainerIds env
    → (request : LifecycleRequest) (principal : Option ServerPrincipal)
    → Traces env (LifecycleStep (Target env request)) (handle env request principal)
unfolding handle
handle-LifecycleStep env ids request principal =
    Traces-bind _ _ (Traces-or_throw _ _) (serve-LifecycleStep env ids request)

abbrev pub IsProvisioned : Server → Type 0
IsProvisioned r = needs_container r.status ≡ true → r.container_id ≢ none

RowsStep-IsProvisioned :
    {T : String → Type 0} {rs rs' : List Server}
    → RowsStep T rs rs'
    → All IsProvisioned rs
    → All IsProvisioned rs'
RowsStep-IsProvisioned nil h = tt
RowsStep-IsProvisioned (same s) h = (h.0, RowsStep-IsProvisioned s h.1)
RowsStep-IsProvisioned (moved t m s) h = (m.provisioned, RowsStep-IsProvisioned s h.1)
RowsStep-IsProvisioned (removed t d s) h = RowsStep-IsProvisioned s h.1
RowsStep-IsProvisioned (inserted t e) h =
    (λ need. absurd (false-true (subst (λ s. needs_container s ≡ true) e need)), tt)

abbrev pub AllProvisioned : Db → Type 0
AllProvisioned db = All IsProvisioned db.servers

-- If the other requests leave every STARTING or RUNNING row with a container id, so does a
-- lifecycle request, at whatever point it stops.
pub handle-AllProvisioned :
    (env : Env)
    → HasContainerIds env
    → ((n : ℕ) (db : Db) → AllProvisioned db → AllProvisioned (env.interfere n db))
    → ((n : ℕ) (db : Db) → AllProvisioned db → AllProvisioned (env.interfere_locked n db))
    → (request : LifecycleRequest) (principal : Option ServerPrincipal) (w : World)
    → AllProvisioned w.db
    → AllProvisioned (handle env request principal w).1.db
handle-AllProvisioned env ids free locked request principal w h =
    Trace-invariant AllProvisioned free locked (λ db db' s. RowsStep-IsProvisioned s.rows)
      ((handle-LifecycleStep env ids request principal).at w) h
