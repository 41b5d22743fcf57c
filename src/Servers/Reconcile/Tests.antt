-- ===== src/Servers/Reconcile/Tests.antt =====
-- The reconciliation on concrete data, and the theorems at such data.
use minepanel_backend.Common.{◌≡◌, refl, map, none, some, [], ◌∷◌, String, true}
use minepanel_backend.Daemon.{failed, object}
use minepanel_backend.Schema.{ServerStatus, running, stopped, error, open_access}
use minepanel_backend.Effects.{Env, World, ◌>>=◌}
use minepanel_backend.Effects.Trace.{Traces}
use minepanel_backend.Docker.Errors.{
  handle_docker_error, is_unreachable_code, is_daemon_unreachable,
}
use minepanel_backend.Docker.Service.{
  inspect_container, find_managed_container, inspected, first_container, looked_up,
}
use minepanel_backend.Servers.Reconcile.{
  inspect_row, decide, reconcile_row, reconcile_rows, write_outcome, write_outcomes, settle,
  on_module_init,
}
use minepanel_backend.Servers.Reconcile.Steps.{ReconcileStep, on_module_init-ReconcileStep}
use minepanel_backend.Servers.Reconcile.Outage.{Outage, on_module_init-unreachable}
use minepanel_backend.Scenarios.{no_memory, quiet, small_db, machine}

-- opens every definition that a run meets
reconcile_run : Unit {0}
unfolding inspect_row decide reconcile_row reconcile_rows write_outcome write_outcomes settle
    on_module_init inspect_container find_managed_container inspected first_container looked_up
    handle_docker_error is_unreachable_code ◌>>=◌
reconcile_run = tt

abbrev unsettled : World
unsettled = record {
  db = record small_db {
    servers =
        machine "a" 1 (some "c1") error open_access ∷ machine "b" 2 none error open_access ∷ [];
  };
  memory = no_memory;
  tick = 0;
}

-- the container of `a` runs; `b` has none
heals :
    map {B = String × ServerStatus}
      (λ r. (r.id, r.status))
      (on_module_init quiet unsettled).1.db.servers
    ≡ ("a", running) ∷ ("b", stopped) ∷ []
unfolding reconcile_run
heals = refl

on_module_init-ReconcileStep_example : Traces quiet ReconcileStep (on_module_init quiet)
on_module_init-ReconcileStep_example = on_module_init-ReconcileStep quiet

abbrev cut_off : Env
cut_off = record quiet {
  inspect = λ n id. failed (object (some "ECONNREFUSED") none);
  list = λ n id. failed (object (some "ECONNREFUSED") none);
}

refused_is_unreachable : is_daemon_unreachable (object (some "ECONNREFUSED") none) ≡ true
unfolding is_daemon_unreachable is_unreachable_code
refused_is_unreachable = refl

cut_off-Outage : Outage cut_off
cut_off-Outage = record {
  inspect = λ n id. (object (some "ECONNREFUSED") none, refl, refused_is_unreachable);
  list = λ n id. (object (some "ECONNREFUSED") none, refl);
}

on_module_init-unreachable_example : Traces cut_off (λ db db'. db' ≡ db) (on_module_init cut_off)
on_module_init-unreachable_example = on_module_init-unreachable cut_off cut_off-Outage
