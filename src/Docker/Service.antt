-- ===== src/Docker/Service.antt =====
-- src/docker/docker.service.ts: the methods of DockerService that the lifecycle calls.
pub mod Writes
use Prim.Native.Char.{code}
use Prim.Native.String
use Prim.Native.String.{[], ◌∷◌}
use mathlib.Core.List.{[], ◌∷◌}
use minepanel_backend.Common.{
  ℕ, ◌+◌, ◌*◌, ◌/◌, String, Bool, true, false, not, ◌&&◌, ◌||◌, Option, none, some, List, length,
  ltb, leb, ◌==◌, if◌then◌else◌, nat_eq, string_eq, bool_eq, option_eq,
}
use minepanel_backend.Http.{Exception, Result, ok, err, bad_request, not_found, rcon_unavailable}
use minepanel_backend.Daemon.{
  Cause, Reply, replied, failed, InspectInfo, ContainerSummary, DockerInfo, Statfs, ExecState,
}
use minepanel_backend.Effects.{Env, M, pure, throw, lift, call, ◌>>=◌, ◌>>◌, throw_if}
use minepanel_backend.Schema.{Server}
use minepanel_backend.Docker.Errors.{
  is_daemon_unreachable, is_docker_error, is_status_code, handle_docker_error,
}
use minepanel_backend.Docker.Config.{DockerConfig, read_docker_config, get_or}
use minepanel_backend.Docker.Container.{container_config}

unfoldable pub created_id : Reply String → Result String
created_id (replied id) = ok id
created_id (failed cause) = err (
    if is_status_code cause 404
    then not_found "Docker image or network not found"
    else handle_docker_error cause "container")

unfoldable pub acknowledged : Reply (Unit {0}) → Result (Unit {0})
acknowledged (replied _) = ok tt
acknowledged (failed cause) =
    if is_status_code cause 304 then ok tt else err (handle_docker_error cause "container")

unfoldable pub removed : Reply (Unit {0}) → Result (Unit {0})
removed (replied _) = ok tt
removed (failed cause) =
    if is_status_code cause 404 then ok tt else err (handle_docker_error cause "container")

pub record InspectState : Type 0 where
  pub id : String
  pub running : Bool

unfoldable pub inspected : Reply InspectInfo → Result InspectState
inspected (replied info) = ok (record { id = info.id; running = get_or info.running false })
inspected (failed cause) = err (handle_docker_error cause "container")

-- ManagedContainerLookupResult
pub data Lookup : Type 0 where
  absent unavailable : Lookup
  present : (id : String) (running : Bool) → Lookup

unfoldable pub first_container : List ContainerSummary → Lookup
first_container [] = absent
first_container (c ∷ _) = elim c.id [
  | none ↦ absent
  | some id ↦ if id == "" then absent else present id (c.state == some "running")
]

unfoldable pub looked_up : Reply (List ContainerSummary) → Lookup
looked_up (replied containers) = first_container containers
looked_up (failed cause) = unavailable

unfoldable pub executed : Reply ExecState → Result (Unit {0})
executed (replied state) =
    if state.running == some false && state.exit_code == some 0
    then ok tt
    else err (rcon_unavailable "RCON unavailable")
executed (failed cause) = err (
    if is_docker_error cause
    then handle_docker_error cause "container"
    else rcon_unavailable "RCON unavailable")

-- HostInfo and DiskInfo
pub record HostInfo : Type 0 where
  pub total_ram_mb : Option ℕ
  pub cpu_count : Option ℕ

pub record DiskInfo : Type 0 where
  pub total_disk_mb : Option ℕ
  pub free_disk_mb : Option ℕ

unfoldable pub to_mb : Option ℕ → Option ℕ
to_mb none = none
to_mb (some value) = if value == 0 then none else some (value / 1024 / 1024)

unfoldable pub positive : Option ℕ → Option ℕ
positive none = none
positive (some value) = if value == 0 then none else some value

unfoldable pub host_info : Reply (Option DockerInfo) → Result HostInfo
host_info (replied none) = ok (record { total_ram_mb = none; cpu_count = none })
host_info (replied (some info)) =
    ok (record { total_ram_mb = to_mb info.mem_total; cpu_count = positive info.ncpu })
host_info (failed cause) = err (handle_docker_error cause "host")

unfoldable pub disk_info : Reply Statfs → DiskInfo
disk_info (failed cause) = record { total_disk_mb = none; free_disk_mb = none }
disk_info (replied stats) =
    if stats.bsize == 0 || ltb stats.blocks stats.bavail
    then record { total_disk_mb = none; free_disk_mb = none }
    else record {
      total_disk_mb = some (stats.blocks * stats.bsize / 1024 / 1024);
      free_disk_mb = some (stats.bavail * stats.bsize / 1024 / 1024);
    }

-- NUL, CR or LF
has_control : String → Bool
has_control [] = false
has_control (c ∷ s) = if code c == 0 || code c == 13 || code c == 10 then true else has_control s

-- the loop of `validateRconCommand`, with the bytes counted so far
args_fit : ℕ → List String → Bool
args_fit total [] = true
args_fit total (arg ∷ args) =
    let total' = total + String.len arg in
    if arg == "" || has_control arg || ltb 256 total' then false else args_fit total' args

unfoldable pub valid_rcon_command : List String → Bool
unfolding has_control args_fit
valid_rcon_command command =
    not (length command == 0) && leb (length command) 2 && args_fit 0 command

module _ (env : Env) where
  unfoldable pub create_container : Server → M String
  create_container server = do
    config ← lift (read_docker_config env)
    container ← lift (container_config config server)
    reply ← call env (λ n. env.create n container)
    lift (created_id reply)

  unfoldable pub start_container : String → M (Unit {0})
  start_container id = do reply ← call env (λ n. env.start n id); lift (acknowledged reply)

  unfoldable pub stop_container : String → ℕ → M (Unit {0})
  stop_container id seconds = do
    throw_if (ltb 55 seconds) (bad_request "Invalid stop timeout")
    reply ← call env (λ n. env.stop n id seconds)
    lift (acknowledged reply)

  unfoldable pub execute_rcon_command : String → List String → M (Unit {0})
  execute_rcon_command id command = do
    throw_if (not (valid_rcon_command command)) (rcon_unavailable "RCON command rejected")
    reply ← call env (λ n. env.exec n id command)
    lift (executed reply)

  unfoldable pub remove_container : String → M (Unit {0})
  remove_container id = do reply ← call env (λ n. env.remove n id); lift (removed reply)

  unfoldable pub inspect_container : String → M InspectState
  inspect_container id = do reply ← call env (λ n. env.inspect n id); lift (inspected reply)

  unfoldable pub find_managed_container : String → M Lookup
  find_managed_container server_id = do
    reply ← call env (λ n. env.list n server_id)
    pure (looked_up reply)

  unfoldable pub get_host_info : M HostInfo
  get_host_info = do reply ← call env (λ n. env.info n); lift (host_info reply)

  unfoldable pub get_host_disk_info : M DiskInfo
  get_host_disk_info = do
    config ← lift (read_docker_config env)
    reply ← call env (λ n. env.statfs n config.mc_data_path)
    pure (disk_info reply)
