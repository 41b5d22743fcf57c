-- ===== src/Servers/Delete.antt =====
-- src/servers/servers.service.ts: `deleteServer`.
use minepanel_backend.Common.{
  String, Bool, true, false, not, Option, none, some, ◌==◌, if◌then◌else◌, nat_eq, string_eq,
  option_eq,
}
use minepanel_backend.Http.{conflict, is_not_found}
use minepanel_backend.Schema.{stopped, stopping, error, server_status_eq}
use minepanel_backend.Effects.{Env, M, pure, or_throw, throw_if, try_catch, ◌>>=◌, ◌>>◌}
use minepanel_backend.Docker.Service.{remove_container, inspect_container}
use minepanel_backend.Servers.Statements.{ServerPrincipal, nonempty, transition, delete_in_status}
use minepanel_backend.Servers.Shared.{load_visible_server}

module _ (env : Env) where
  unfoldable pub resolve_delete_remove_failure : String → String → M Bool
  resolve_delete_remove_failure id container =
      try_catch
        (do
          state ← inspect_container env container
          if state.running
              then (do transition env id stopping error (some container) none; pure false)
              else (do delete_in_status env id stopping; pure true))
        (λ e.
          if is_not_found e
          then (do delete_in_status env id stopping; pure true)
          else (do transition env id stopping error (some container) none; pure false))

  unfoldable pub remove_if_provisioned : String → Option String → M (Unit {0})
  remove_if_provisioned id none = pure tt
  remove_if_provisioned id (some container) =
      try_catch (remove_container env container)
        λ e. do removed ← resolve_delete_remove_failure id container; throw_if (not removed) e

  unfoldable pub delete_server : String → ServerPrincipal → M (Unit {0})
  delete_server id principal = do
    row ← load_visible_server env id principal
    throw_if (not (row.status == stopped)) (conflict "Server is not in STOPPED state")
    claimed ← transition env id stopped stopping row.container_id none
    deleting ← or_throw claimed (conflict "Server is not in STOPPED state")
    remove_if_provisioned id (nonempty deleting.container_id)
    delete_in_status env id stopping
