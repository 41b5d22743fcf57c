-- ===== src/Servers/Tests.antt =====
-- Runs of the lifecycle on concrete data, and the theorems at such data.
use minepanel_backend.Common.{
  ℕ, ◌≤◌, ◌≡◌, refl, subst, arith, map, List, String, none, some, [], ◌∷◌,
}
use minepanel_backend.Effects.{World, ◌>>=◌}
use minepanel_backend.Effects.Trace.{Traces}
use minepanel_backend.Schema.{ServerStatus, paper, admin, running, stopped}
use minepanel_backend.Servers.Statements.{
  ServerPrincipal, transition, transition_in_tx, claim_container_id, delete_in_status, take_lock,
  find_visible, is_visible,
}
use minepanel_backend.Servers.Admission.{
  parse_resource_config, check_disk, check_memory_admission, current_allocation_mb,
  parse_stop_warn_seconds,
}
use minepanel_backend.Servers.Shared.{preflight, load_visible_server}
use minepanel_backend.Servers.Create.{
  CreateServerDto, create_server, admit_create, compensate, compensate_create_failure,
}
use minepanel_backend.Servers.Run.{
  start_server, stop_server, restart_server, stop_phase, run_start, start_again, admit_start,
  graceful_stop_container, sleep, rcon_phase,
}
use minepanel_backend.Servers.Delete.{
  delete_server, resolve_delete_remove_failure, remove_if_provisioned,
}
use minepanel_backend.Docker.Service.{
  create_container, start_container, stop_container, execute_rcon_command, remove_container,
  inspect_container, find_managed_container, get_host_info, get_host_disk_info, created_id,
  acknowledged, removed, inspected, first_container, looked_up, executed, to_mb, positive,
  host_info, disk_info, valid_rcon_command,
}
use minepanel_backend.Docker.Config.{read_docker_config, config_number}
use minepanel_backend.Docker.Container.{
  container_config, validate_server_for_create, resolve_data_dir, is_container_name, build_env,
}
use minepanel_backend.Docker.Image.{is_image}
use minepanel_backend.Docker.Errors.{
  handle_docker_error, is_docker_error, is_status_code, is_unreachable_code,
}
use minepanel_backend.Text.{
  trim, split_path, drop_separators, replace_breaks, decimal, decimal_value, classes,
}
use minepanel_backend.Http.{ok}
use minepanel_backend.Effects.Triples.{Post}
use minepanel_backend.Docker.Service.{HostInfo}
use minepanel_backend.Servers.Admission.{ResourceConfig, allocatable}
use minepanel_backend.Servers.Create.{new_server}
use minepanel_backend.Servers.Memory.{total_mb, admit_create-bounded}
use minepanel_backend.Servers.Held.{Held}
use minepanel_backend.Servers.Alone.{Alone}
use minepanel_backend.Servers.Settles.{
  Settled, start_server-Settled, stop_server-Settled, restart_server-Settled,
}
use minepanel_backend.Servers.Graph.Writes.{false-true}
use minepanel_backend.Servers.Controller.{create, start, stop, restart, delete, handle, serve}
use minepanel_backend.Servers.Graph.Parts.{IsFull, nonempty-IsFull}
use minepanel_backend.Servers.Graph.{LifecycleStep}
use minepanel_backend.Servers.Graph.Creation.{HasContainerIds}
use minepanel_backend.Servers.Graph.Reach.{
  Target, handle-LifecycleStep, AllProvisioned, handle-AllProvisioned,
}
use minepanel_backend.Scenarios.{quiet, small_db, start_world}

abbrev ann : ServerPrincipal
ann = record { id = "ann"; role = admin }

-- opens every definition that a run meets
servers_run : Unit {0}
unfolding handle serve start_server stop_server restart_server delete_server create_server
    stop_phase run_start start_again admit_start admit_create preflight load_visible_server
    graceful_stop_container sleep rcon_phase compensate compensate_create_failure
    resolve_delete_remove_failure remove_if_provisioned transition transition_in_tx
    claim_container_id delete_in_status take_lock find_visible is_visible parse_resource_config
    check_disk check_memory_admission current_allocation_mb parse_stop_warn_seconds create_container
    start_container stop_container execute_rcon_command remove_container inspect_container
    find_managed_container get_host_info get_host_disk_info created_id acknowledged removed
    inspected first_container looked_up executed to_mb positive host_info disk_info
    valid_rcon_command read_docker_config config_number container_config validate_server_for_create
    resolve_data_dir is_container_name build_env is_image trim split_path drop_separators
    replace_breaks decimal decimal_value classes handle_docker_error is_docker_error is_status_code
    is_unreachable_code ◌>>=◌
servers_run = tt

abbrev statuses : World → List (String × ServerStatus)
statuses w = map (λ r. (r.id, r.status)) w.db.servers

starts :
    statuses (handle quiet (start "arena") (some ann) start_world).1
    ≡ ("lobby", running) ∷ ("arena", running) ∷ []
unfolding servers_run
starts = refl

stops :
    statuses (handle quiet (stop "lobby") (some ann) start_world).1
    ≡ ("lobby", stopped) ∷ ("arena", stopped) ∷ []
unfolding servers_run
stops = refl

restarts :
    statuses (handle quiet (restart "lobby") (some ann) start_world).1
    ≡ ("lobby", running) ∷ ("arena", stopped) ∷ []
unfolding servers_run
restarts = refl

deletes :
    statuses (handle quiet (delete "arena") (some ann) start_world).1 ≡ ("lobby", running) ∷ []
unfolding servers_run
deletes = refl

quiet-HasContainerIds : HasContainerIds quiet
quiet-HasContainerIds n config c e =
    subst IsFull {x = "c9"} (ground arith) (nonempty-IsFull (some "c9") "c9" refl)

handle-LifecycleStep_example :
    Traces quiet
      (LifecycleStep (Target quiet (start "arena")))
      (handle quiet (start "arena") (some ann))
handle-LifecycleStep_example =
    handle-LifecycleStep quiet quiet-HasContainerIds (start "arena") (some ann)

small_db-AllProvisioned : AllProvisioned small_db
small_db-AllProvisioned = (λ need e. cc, (λ need e. cc, tt))

handle-AllProvisioned_example :
    AllProvisioned (handle quiet (stop "lobby") (some ann) start_world).1.db
handle-AllProvisioned_example =
    handle-AllProvisioned quiet quiet-HasContainerIds (λ n db h. h) (λ n db h. h) (stop "lobby")
      (some ann) start_world small_db-AllProvisioned

abbrev small_dto : CreateServerDto
small_dto = record {
  name = "mine";
  provider = paper;
  version = "1.21";
  port = 25570;
  max_players = none;
  difficulty = none;
  gamemode = none;
  pvp = none;
  memory_limit_mb = none;
  motd = none;
  level_seed = none;
  online_mode = none;
  view_distance = none;
  allow_flight = none;
  access_type = none;
}

creates_server :
    statuses (handle quiet (create small_dto) (some ann) start_world).1
    ≡ ("lobby", running) ∷ ("arena", stopped) ∷ ("fresh", running) ∷ []
unfolding servers_run
creates_server = refl

abbrev config : ResourceConfig
config = record { min_free_disk_mb = 2048; ratio_num = 9; ratio_den = 10 }

abbrev host : HostInfo
host = record { total_ram_mb = some 8192; cpu_count = some 4 }

creates :
    (admit_create quiet small_dto ann config host start_world).0
    ≡ ok (new_server small_dto ann "fresh" 1000)
unfolding servers_run
creates = refl

admit_create-bounded_example :
    (ram : ℕ) × (host.total_ram_mb ≡ some ram)
    × total_mb (admit_create quiet small_dto ann config host start_world).1.db
      ≤ allocatable config ram
admit_create-bounded_example =
    admit_create-bounded quiet (λ n db. omega arith) small_dto (omega arith) ann config host
      start_world (new_server small_dto ann "fresh" 1000) creates

quiet-Alone : (id c : String) → Alone quiet id c
quiet-Alone id c = record { free = λ s n db h. h; locked = λ s n db h. h }

arena-Held : Held "arena" "c2" stopped small_db
arena-Held = (refl, (λ h. absurd (false-true h), (λ h. (refl, refl), tt)))

lobby-Held : Held "lobby" "c1" running small_db
lobby-Held = (refl, (λ h. (refl, refl), (λ h. absurd (false-true h), tt)))

start_server-Settled_example :
    Post
      (λ _. Held "arena" "c2" running)
      (λ _. Settled "arena" "c2")
      (start_server quiet "arena" ann start_world).0
      (start_server quiet "arena" ann start_world).1.db
start_server-Settled_example =
    start_server-Settled quiet "arena" "c2" refl (quiet-Alone "arena" "c2") stopped ann refl
      start_world arena-Held

stop_server-Settled_example :
    Post
      (λ _. Held "lobby" "c1" stopped)
      (λ _. Settled "lobby" "c1")
      (stop_server quiet "lobby" ann start_world).0
      (stop_server quiet "lobby" ann start_world).1.db
stop_server-Settled_example =
    stop_server-Settled quiet "lobby" "c1" refl (quiet-Alone "lobby" "c1") running ann refl
      start_world lobby-Held

restart_server-Settled_example :
    Post
      (λ _. Held "lobby" "c1" running)
      (λ _. Settled "lobby" "c1")
      (restart_server quiet "lobby" ann start_world).0
      (restart_server quiet "lobby" ann start_world).1.db
restart_server-Settled_example =
    restart_server-Settled quiet "lobby" "c1" refl (quiet-Alone "lobby" "c1") running ann refl
      start_world lobby-Held
