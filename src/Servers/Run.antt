-- ===== src/Servers/Run.antt =====
-- src/servers/servers.service.ts: start, stop and restart.
use minepanel_backend.Common.{
  ℕ, String, Bool, true, false, not, Option, none, some, [], ◌∷◌, ltb, ◌==◌, if◌then◌else◌, nat_eq,
  string_eq, option_eq, ◌*◌,
}
use minepanel_backend.Http.{
  Exception, conflict, internal_server_error, is_service_unavailable, is_not_found,
}
use minepanel_backend.Schema.{
  Server, ServerStatus, stopped, starting, running, stopping, error, server_status_eq,
}
use minepanel_backend.Effects.{
  Env, M, pure, throw, lift, or_throw, throw_if, when_none, try_catch, locked_query, call, ◌>>=◌,
  ◌>>◌,
}
use minepanel_backend.Text.{decimal, concat}
use minepanel_backend.Docker.Service.{
  HostInfo, start_container, stop_container, execute_rcon_command,
}
use minepanel_backend.Servers.Admission.{
  ResourceConfig, parse_resource_config, check_memory_admission, current_allocation_mb,
  parse_stop_warn_seconds,
}
use minepanel_backend.Servers.Statements.{
  ServerPrincipal, nonempty, transition, transition_in_tx, take_lock,
}
use minepanel_backend.Servers.Shared.{load_visible_server, preflight}
use minepanel_backend.Servers.Public.{PublicServer, to_public_server}

-- the status in which a failed stop leaves the row
abbrev pub after_failed_stop : Exception → ServerStatus
after_failed_stop e =
    if is_service_unavailable e then error else if is_not_found e then stopped else running

module _ (env : Env) where
  -- the transaction of `startServer` and of the second half of `restartServer`
  unfoldable pub admit_start :
      String → String → ℕ → ResourceConfig → HostInfo → ServerStatus → String → M (Option Server)
  admit_start id container memory config host from message = do
    take_lock env
    current ← locked_query env (λ db. current_allocation_mb (some id) false db.servers)
    lift (check_memory_admission host config memory current message)
    transition_in_tx env id from starting (some container) none

  -- from STARTING: start the container, and settle the row by the outcome
  unfoldable pub run_start : String → String → M PublicServer
  run_start id container = do
    try_catch (start_container env container) λ e. do
      transition env id starting (if is_service_unavailable e then error else stopped)
          (some container) none
      throw e
    up ← transition env id starting running (some container) none
    when_none up (do transition env id starting error (some container) none; pure tt)
    row ← or_throw up (internal_server_error "Failed to finalize running server state")
    pure (to_public_server row)

  unfoldable pub start_server : String → ServerPrincipal → M PublicServer
  start_server id principal = do
    row ← load_visible_server env id principal
    throw_if (not (row.status == stopped)) (conflict "Server is not in STOPPED state")
    container ←
        or_throw (nonempty row.container_id) (conflict "Server container is not provisioned")
    config ← lift (parse_resource_config env)
    host ← preflight env config "Insufficient disk space to start server"
    claimed ←
        admit_start id container row.memory_limit_mb config host stopped
          "Insufficient memory to start server"
    or_throw claimed (conflict "Server is not in STOPPED state")
    run_start id container

  unfoldable pub sleep : ℕ → M (Unit {0})
  sleep ms = call env (λ n. tt)

  -- the RCON phase of `gracefulStopContainer`; the result says that it failed
  unfoldable pub rcon_phase : String → ℕ → M Bool
  rcon_phase container seconds =
      try_catch
        (do
          execute_rcon_command env container
              ("say" ∷ concat ("§cServer closing in " ∷ decimal seconds ∷ " seconds..." ∷ []) ∷ [])
          if ltb 0 seconds then sleep (seconds * 1000) else pure tt
          execute_rcon_command env container ("save-all" ∷ [])
          sleep 3000
          pure false)
        (λ e. pure true)

  unfoldable pub graceful_stop_container : String → ℕ → M (Unit {0})
  unfolding sleep rcon_phase
  graceful_stop_container container seconds = do
    rcon_failed ← rcon_phase container seconds
    stop_container env container (if rcon_failed then 10 else 15)

  -- the claim RUNNING → STOPPING and the stop, as in `stopServer` and `restartServer`
  unfoldable pub stop_phase : String → ServerPrincipal → M (String × Server)
  stop_phase id principal = do
    row ← load_visible_server env id principal
    throw_if (not (row.status == running)) (conflict "Server is not in RUNNING state")
    container ←
        or_throw (nonempty row.container_id)
          (internal_server_error "Running server has no container id")
    seconds ← lift (parse_stop_warn_seconds env)
    claimed ← transition env id running stopping (some container) none
    or_throw claimed (conflict "Server is not in RUNNING state")
    try_catch (graceful_stop_container container seconds)
        λ e. do transition env id stopping (after_failed_stop e) (some container) none; throw e
    pure (container, row)

  unfoldable pub stop_server : String → ServerPrincipal → M PublicServer
  stop_server id principal = do
    claimed ← stop_phase id principal
    halted ← transition env id stopping stopped (some claimed.0) none
    settled ← or_throw halted (internal_server_error "Failed to finalize stopped server state")
    pure (to_public_server settled)

  -- the `try` block of `restartServer`
  unfoldable pub start_again : String → String → ℕ → M PublicServer
  start_again id container memory = do
    config ← lift (parse_resource_config env)
    host ← preflight env config "Insufficient disk space to restart server"
    claimed ←
        admit_start id container memory config host stopping "Insufficient memory to restart server"
    or_throw claimed (conflict "Server is not in STOPPED state")
    run_start id container

  unfoldable pub restart_server : String → ServerPrincipal → M PublicServer
  restart_server id principal = do
    claimed ← stop_phase id principal
    let container = claimed.0
    try_catch (start_again id container (claimed.1).memory_limit_mb)
        λ e. do transition env id stopping stopped (some container) none; throw e
