-- ===== src/Servers/Public.antt =====
-- src/servers/public-server.ts: what a client sees of a row.
use minepanel_backend.Common.{ℕ, String, Bool, Option}
use minepanel_backend.Schema.{
  Server, ServerProvider, ServerStatus, Difficulty, Gamemode, AccessType,
}

pub record PublicServer : Type 0 where
  pub id : String
  pub name : String
  pub provider : ServerProvider
  pub version : String
  pub port : ℕ
  pub status : ServerStatus
  pub max_players : ℕ
  pub difficulty : Difficulty
  pub gamemode : Gamemode
  pub pvp : Bool
  pub memory_limit_mb : ℕ
  pub motd : Option String
  pub level_seed : Option String
  pub online_mode : Bool
  pub view_distance : ℕ
  pub allow_flight : Bool
  pub owner_id : String
  pub access_type : AccessType
  pub created_at : ℕ
  pub updated_at : ℕ

abbrev pub to_public_server : Server → PublicServer
to_public_server r = record {
  id = r.id;
  name = r.name;
  provider = r.provider;
  version = r.version;
  port = r.port;
  status = r.status;
  max_players = r.max_players;
  difficulty = r.difficulty;
  gamemode = r.gamemode;
  pvp = r.pvp;
  memory_limit_mb = r.memory_limit_mb;
  motd = r.motd;
  level_seed = r.level_seed;
  online_mode = r.online_mode;
  view_distance = r.view_distance;
  allow_flight = r.allow_flight;
  owner_id = r.owner_id;
  access_type = r.access_type;
  created_at = r.created_at;
  updated_at = r.updated_at;
}
