-- ===== src/Servers/Create.antt =====
-- src/servers/servers.service.ts: `createServer` and its compensation.
use minepanel_backend.Common.{
  ℕ, String, Bool, true, false, Option, none, some, ◌==◌, nat_eq, string_eq, option_eq, ◌&&◌,
}
use minepanel_backend.Http.{internal_server_error}
use minepanel_backend.Schema.{
  Server, ServerProvider, Difficulty, Gamemode, AccessType, creating, running, error, normal,
  survival, open_access, server_status_eq,
}
use minepanel_backend.Effects.{
  Env, M, pure, throw, lift, or_throw, when_none, try_catch, clock, fresh_id, locked_query,
  locked_statement, statement, ◌>>=◌, ◌>>◌,
}
use minepanel_backend.Docker.Config.{get_or}
use minepanel_backend.Docker.Service.{
  HostInfo, Lookup, absent, unavailable, present, create_container, start_container,
  find_managed_container,
}
use minepanel_backend.Servers.Admission.{
  ResourceConfig, parse_resource_config, check_memory_admission, current_allocation_mb,
}
use minepanel_backend.Servers.Statements.{
  ServerPrincipal, transition, claim_container_id, delete_in_status, take_lock, update_servers,
  insert_server,
}
use minepanel_backend.Servers.Shared.{preflight}
use minepanel_backend.Servers.Public.{PublicServer, to_public_server}

pub record CreateServerDto : Type 0 where
  pub name : String
  pub provider : ServerProvider
  pub version : String
  pub port : ℕ
  pub max_players : Option ℕ
  pub difficulty : Option Difficulty
  pub gamemode : Option Gamemode
  pub pvp : Option Bool
  pub memory_limit_mb : Option ℕ
  pub motd : Option String
  pub level_seed : Option String
  pub online_mode : Option Bool
  pub view_distance : Option ℕ
  pub allow_flight : Option Bool
  pub access_type : Option AccessType

abbrev pub requested_mb : CreateServerDto → ℕ
requested_mb dto = get_or dto.memory_limit_mb 2048

-- the row that `createServer` inserts, with the database's defaults
abbrev pub new_server : CreateServerDto → ServerPrincipal → String → ℕ → Server
new_server dto principal id now = record {
  id = id;
  name = dto.name;
  provider = dto.provider;
  version = dto.version;
  port = dto.port;
  container_id = none;
  status = creating;
  max_players = get_or dto.max_players 20;
  difficulty = get_or dto.difficulty normal;
  gamemode = get_or dto.gamemode survival;
  pvp = get_or dto.pvp true;
  memory_limit_mb = requested_mb dto;
  motd = dto.motd;
  level_seed = dto.level_seed;
  online_mode = get_or dto.online_mode true;
  view_distance = get_or dto.view_distance 10;
  allow_flight = get_or dto.allow_flight false;
  world_path = none;
  rcon_password = none;
  owner_id = principal.id;
  access_type = get_or dto.access_type open_access;
  created_at = now;
  updated_at = now;
}

module _ (env : Env) where
  -- the compensation once the lookup has answered
  unfoldable pub compensate : String → Lookup → M (Unit {0})
  compensate id unavailable = pure tt
  compensate id (present container up) = do
    now ← clock env
    statement env (
        update_servers (λ r. r.id == id && r.status == creating)
          (λ r. record r { container_id = some container; status = error; updated_at = now }))
    pure tt
  compensate id absent = delete_in_status env id creating

  unfoldable pub compensate_create_failure : String → M (Unit {0})
  compensate_create_failure id = do lookup ← find_managed_container env id; compensate id lookup

  -- the transaction of `createServer`
  unfoldable pub admit_create :
      CreateServerDto → ServerPrincipal → ResourceConfig → HostInfo → M Server
  admit_create dto principal config host = do
    take_lock env
    current ← locked_query env (λ db. current_allocation_mb none true db.servers)
    lift (
        check_memory_admission host config (requested_mb dto) current
          "Insufficient memory to create server")
    id ← fresh_id env
    now ← clock env
    inserted ← locked_statement env (insert_server (new_server dto principal id now))
    lift inserted

  unfoldable pub create_server : CreateServerDto → ServerPrincipal → M PublicServer
  create_server dto principal = do
    config ← lift (parse_resource_config env)
    host ← preflight env config "Insufficient disk space to create server"
    created ← admit_create dto principal config host
    container ←
        try_catch (create_container env created)
          (λ e. do compensate_create_failure created.id; throw e)
    persisted ← claim_container_id env created.id container
    when_none persisted (compensate_create_failure created.id)
    or_throw persisted (internal_server_error "Failed to persist container id")
    try_catch (start_container env container)
        (λ e. do transition env created.id creating error (some container) none; throw e)
    up ← transition env created.id creating running (some container) none
    row ← or_throw up (internal_server_error "Failed to finalize running server state")
    pure (to_public_server row)
