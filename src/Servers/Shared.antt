-- ===== src/Servers/Shared.antt =====
-- src/servers/servers.service.ts: what the handlers share.
use minepanel_backend.Common.{String, nat_eq, string_eq, option_eq}
use minepanel_backend.Http.{not_found}
use minepanel_backend.Schema.{Server, server_status_eq}
use minepanel_backend.Effects.{Env, M, pure, lift, or_throw, query, ◌>>=◌, ◌>>◌}
use minepanel_backend.Docker.Service.{HostInfo, get_host_info, get_host_disk_info}
use minepanel_backend.Servers.Admission.{ResourceConfig, check_disk}
use minepanel_backend.Servers.Statements.{ServerPrincipal, find_visible}
use minepanel_backend.Servers.Public.{PublicServer, to_public_server}

module _ (env : Env) where
  unfoldable pub load_visible_server : String → ServerPrincipal → M Server
  load_visible_server id principal = do
    found ← query env (find_visible id principal)
    or_throw found (not_found "Server not found")

  unfoldable pub get_server : String → ServerPrincipal → M PublicServer
  get_server id principal = do row ← load_visible_server id principal; pure (to_public_server row)

  -- `checkDisk` with fresh measurements, and then the host's memory
  unfoldable pub preflight : ResourceConfig → String → M HostInfo
  preflight config message = do
    host ← get_host_info env
    disk ← get_host_disk_info env
    lift (check_disk disk config.min_free_disk_mb message)
    pure host
