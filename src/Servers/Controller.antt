-- ===== src/Servers/Controller.antt =====
-- src/servers/servers.controller.ts: the routes that change a server, and the handler of each.
use minepanel_backend.Common.{String, Option, none, some}
use minepanel_backend.Http.{unauthorized}
use minepanel_backend.Effects.{Env, M, pure, or_throw, ◌>>=◌, ◌>>◌}
use minepanel_backend.Servers.Public.{PublicServer}
use minepanel_backend.Servers.Statements.{ServerPrincipal}
use minepanel_backend.Servers.Create.{CreateServerDto, create_server}
use minepanel_backend.Servers.Run.{start_server, stop_server, restart_server}
use minepanel_backend.Servers.Delete.{delete_server}

pub data LifecycleRequest : Type 0 where
  create : CreateServerDto → LifecycleRequest
  start stop restart delete : String → LifecycleRequest

module _ (env : Env) where
  unfoldable pub serve : LifecycleRequest → ServerPrincipal → M (Option PublicServer)
  serve (create dto) principal = do row ← create_server env dto principal; pure (some row)
  serve (start id) principal = do row ← start_server env id principal; pure (some row)
  serve (stop id) principal = do row ← stop_server env id principal; pure (some row)
  serve (restart id) principal = do row ← restart_server env id principal; pure (some row)
  serve (delete id) principal = do delete_server env id principal; pure none

  -- `extractUser`, and then the handler
  unfoldable pub handle : LifecycleRequest → Option ServerPrincipal → M (Option PublicServer)
  handle request principal = do
    present ← or_throw principal (unauthorized "Unauthorized")
    serve request present
