-- ===== src/Servers/Reconcile.antt =====
-- src/servers/servers.service.ts: the reconciliation of the rows with the daemon at start-up.
pub mod Steps
pub mod Outage
mod Tests
use minepanel_backend.Common.{
  ℕ, String, Bool, true, false, not, ◌&&◌, ◌||◌, Option, none, some, List, [], ◌∷◌, any, filter,
  ◌==◌, if◌then◌else◌, nat_eq, string_eq, option_eq,
}
use minepanel_backend.Http.{Exception, is_service_unavailable, is_not_found}
use minepanel_backend.Schema.{Db, Server, ServerStatus, stopped, running, server_status_eq}
use minepanel_backend.Effects.{Env, M, pure, throw, try_catch, clock, query, statement, ◌>>=◌, ◌>>◌}
use minepanel_backend.Docker.Service.{
  InspectState, Lookup, absent, unavailable, present, inspect_container, find_managed_container,
}
use minepanel_backend.Servers.Statements.{nonempty, container_matches, update_servers}

-- `ReconciliationOutcome`
pub data ReconciliationOutcome : Type 0 where
  state : (status : ServerStatus) (container_id : Option String) → ReconciliationOutcome
  daemon_unavailable unchanged : ReconciliationOutcome

-- what the inspection of a row's container says: an outcome, or that the lookup decides
pub data Inspection : Type 0 where
  decided : ReconciliationOutcome → Inspection
  look_up : Inspection

abbrev pub status_of : Bool → ServerStatus
status_of up = if up then running else stopped

abbrev pub inspect_failure : Exception → Inspection
inspect_failure e =
    if is_service_unavailable e
    then decided daemon_unavailable
    else if is_not_found e
    then look_up
    else decided unchanged

abbrev pub lookup_outcome : Lookup → ReconciliationOutcome
lookup_outcome unavailable = daemon_unavailable
lookup_outcome (present container up) = state (status_of up) (some container)
lookup_outcome absent = state stopped none

abbrev pub is_unavailable : ReconciliationOutcome → Bool
is_unavailable daemon_unavailable = true
is_unavailable _ = false

-- the snapshot of the row is what the table holds
abbrev pub is_snapshot : Server → Server → Bool
is_snapshot row r =
    r.id == row.id
    && r.status == row.status
    && container_matches row.container_id r
    && r.updated_at == row.updated_at

abbrev pub reconciled : ServerStatus → Option String → ℕ → Server → Server
reconciled status container now r = record r {
  status = status;
  container_id = container;
  updated_at = now;
}

module _ (env : Env) where
  unfoldable pub inspect_row : Option String → M Inspection
  inspect_row none = pure look_up
  inspect_row (some container) =
      try_catch
        (do
          found ← inspect_container env container
          pure (decided (state (status_of found.running) (some found.id))))
        (λ e. pure (inspect_failure e))

  unfoldable pub decide : Server → Inspection → M ReconciliationOutcome
  decide row (decided outcome) = pure outcome
  decide row look_up = do lookup ← find_managed_container env row.id; pure (lookup_outcome lookup)

  unfoldable pub reconcile_row : Server → M ReconciliationOutcome
  reconcile_row row = do inspection ← inspect_row (nonempty row.container_id); decide row inspection

  -- `Promise.all(rows.map(reconcileRow))`, each row with its outcome
  unfoldable pub reconcile_rows : List Server → M (List (Server × ReconciliationOutcome))
  reconcile_rows [] = pure []
  reconcile_rows (row ∷ rows) = do
    outcome ← reconcile_row row
    rest ← reconcile_rows rows
    pure ((row, outcome) ∷ rest)

  unfoldable pub write_outcome : Server → ReconciliationOutcome → M (Unit {0})
  write_outcome row daemon_unavailable = pure tt
  write_outcome row unchanged = pure tt
  write_outcome row (state status container) =
      if row.status == status && row.container_id == container then pure tt else do
        now ← clock env
        statement env (update_servers (is_snapshot row) (reconciled status container now))
        pure tt

  unfoldable pub write_outcomes : List (Server × ReconciliationOutcome) → M (Unit {0})
  write_outcomes [] = pure tt
  write_outcomes ((row, outcome) ∷ rest) = do write_outcome row outcome; write_outcomes rest

  -- one unavailable answer leaves every row as it is
  unfoldable pub settle : List (Server × ReconciliationOutcome) → M (Unit {0})
  settle outcomes =
      if any (λ o. is_unavailable o.1) outcomes then pure tt else write_outcomes outcomes

  unfoldable pub on_module_init : M (Unit {0})
  on_module_init = do
    rows ← query env (λ db. filter (λ r. not (r.status == stopped)) db.servers)
    outcomes ← reconcile_rows rows
    settle outcomes
