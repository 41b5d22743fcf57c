-- ===== src/Docker/Service/Writes.antt =====
-- The Docker calls write nothing to the database.
use minepanel_backend.Common.{String, ℕ, List}
use minepanel_backend.Schema.{Db, Server}
use minepanel_backend.Effects.{Env}
use minepanel_backend.Effects.Trace.{Traces, trace_rules}
use minepanel_backend.Docker.Service.{
  create_container, start_container, stop_container, execute_rcon_command, remove_container,
  inspect_container, find_managed_container, get_host_info, get_host_disk_info,
}

module _ {env : Env} {G : Db → Db → Type 0} where
  pub Traces-create_container : (r : Server) → Traces env G (create_container env r)
  unfolding create_container
  Traces-create_container r = search trace_rules depth 9

  pub Traces-start_container : (c : String) → Traces env G (start_container env c)
  unfolding start_container
  Traces-start_container c = search trace_rules

  pub Traces-stop_container : (c : String) (n : ℕ) → Traces env G (stop_container env c n)
  unfolding stop_container
  Traces-stop_container c n = search trace_rules depth 7

  pub Traces-execute_rcon_command :
      (c : String) (args : List String) → Traces env G (execute_rcon_command env c args)
  unfolding execute_rcon_command
  Traces-execute_rcon_command c args = search trace_rules depth 7

  pub Traces-remove_container : (c : String) → Traces env G (remove_container env c)
  unfolding remove_container
  Traces-remove_container c = search trace_rules

  pub Traces-inspect_container : (c : String) → Traces env G (inspect_container env c)
  unfolding inspect_container
  Traces-inspect_container c = search trace_rules

  pub Traces-find_managed_container : (id : String) → Traces env G (find_managed_container env id)
  unfolding find_managed_container
  Traces-find_managed_container id = search trace_rules

  pub Traces-get_host_info : Traces env G (get_host_info env)
  unfolding get_host_info
  Traces-get_host_info = search trace_rules

  pub Traces-get_host_disk_info : Traces env G (get_host_disk_info env)
  unfolding get_host_disk_info
  Traces-get_host_disk_info = search trace_rules depth 7

pub ruleset docker_rules = (
  trace_rules, Traces-create_container, Traces-start_container, Traces-stop_container,
  Traces-execute_rcon_command, Traces-remove_container, Traces-inspect_container,
  Traces-find_managed_container, Traces-get_host_info, Traces-get_host_disk_info,
)
