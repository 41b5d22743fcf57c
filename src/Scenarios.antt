-- ===== src/Scenarios.antt =====
-- Concrete data for the tests: a quiet environment with a daemon that obeys, a small database, and
-- libraries that answer by simple rules.
use minepanel_backend.Common.{
  ℕ, String, true, false, Option, none, some, [], ◌∷◌, ◌==◌, if◌then◌else◌, string_eq,
}
use minepanel_backend.Auth.AccessToken.{text, whole, Candidate, Payload, plain}
use minepanel_backend.Auth.Libraries.{Libraries, accepted, rejected}
use minepanel_backend.Auth.RefreshTokenTtl.{RefreshTokenTtl}
use minepanel_backend.Daemon.{replied, rational}
use minepanel_backend.Effects.{Env, World}
use minepanel_backend.Memory.{Memory}
use minepanel_backend.Schema.{
  User, Server, RefreshToken, Db, Role, admin, moderator, UserStatus, active, ServerStatus, paper,
  normal, survival, AccessType, open_access, request_access, stopped, running, server_lifecycle,
}

abbrev pub quiet : Env
quiet = record {
  interfere = λ n db. db;
  interfere_locked = λ n db. db;
  now = λ n. 1000;
  uuid = λ n. "fresh";
  config = λ key. none;
  number = λ text. rational 1 1;
  resolve_path = λ path. path;
  random_text = λ seed bytes. "random";
  hash_password = λ salt password. password;
  create = λ n config. replied "c9";
  start = λ n id. replied tt;
  stop = λ n id seconds. replied tt;
  remove = λ n id. replied tt;
  inspect = λ n id. replied (record { id = id; running = some true });
  list = λ n id. replied [];
  exec = λ n id command. replied (record { running = some false; exit_code = some 0 });
  info = λ n. replied (some (record { mem_total = some 8589934592; ncpu = some 4 }));
  statfs = λ n path. replied (record { bsize = 4096; blocks = 10000000; bavail = 5000000 });
  interfere_memory = λ n memory. memory;
}

abbrev pub no_memory : Memory
no_memory = record {
  two_factor_failures = [];
  abuse = record { pair_failures = []; account_failures = [] };
}

abbrev pub account : String → Role → UserStatus → User
account id role status = record {
  id = id;
  email = id;
  username = id;
  password_hash = none;
  google_id = none;
  github_id = none;
  role = role;
  status = status;
  totp_secret = none;
  totp_enabled = false;
  totp_backup_codes = none;
  temp_password_hash = none;
  temp_password_expires_at = none;
  must_change_password = false;
  minecraft_uuid = none;
  minecraft_name = none;
  minecraft_verified = false;
  created_at = 0;
  updated_at = 0;
}

abbrev pub machine : String → ℕ → Option String → ServerStatus → AccessType → Server
machine id port container status access_type = record {
  id = id;
  name = id;
  provider = paper;
  version = "1.21";
  port = port;
  container_id = container;
  status = status;
  max_players = 20;
  difficulty = normal;
  gamemode = survival;
  pvp = true;
  memory_limit_mb = 2048;
  motd = none;
  level_seed = none;
  online_mode = true;
  view_distance = 10;
  allow_flight = false;
  world_path = none;
  rcon_password = none;
  owner_id = "ann";
  access_type = access_type;
  created_at = 0;
  updated_at = 0;
}

abbrev pub session : String → String → ℕ → RefreshToken
session id user_id expires_at = record {
  id = id;
  token_id_hash = id;
  user_id = user_id;
  expires_at = expires_at;
  created_at = 0;
}

abbrev pub lobby : Server
lobby = machine "lobby" 25565 (some "c1") running open_access

abbrev pub arena : Server
arena = machine "arena" 25566 (some "c2") stopped request_access

abbrev pub small_db : Db
small_db = record {
  users = account "ann" admin active ∷ account "bob" moderator active ∷ [];
  refresh_tokens = session "t1" "ann" 5000 ∷ session "t2" "bob" 5000 ∷ [];
  oauth_challenges = [];
  setup_state = [];
  servers = lobby ∷ arena ∷ [];
  server_access = [];
  mod_permissions =
      record {
        id = "p1";
        user_id = "bob";
        permission = server_lifecycle;
        server_id = none;
        created_at = 0;
      }
      ∷ [];
}

abbrev pub start_world : World
start_world = record { db = small_db; memory = no_memory; tick = 0 }

abbrev pub no_claims : Candidate
no_claims = record {
  sub = none;
  username = none;
  type = none;
  temporary_auth = none;
  exp = none;
  jti = none;
  temporary_credential_fingerprint = none;
}

-- the claims of the refresh token of session `t1`
abbrev pub claims_of_ann : Payload
claims_of_ann = plain (record no_claims {
  sub = some (text "ann");
  type = some (text "refresh");
  exp = some (whole 5);
  jti = some (text "t1");
})

abbrev pub libraries : Libraries
libraries = record {
  sign = λ n claims lifetime. "signed";
  verify_async = λ n token. if token == "raw" then accepted claims_of_ann else rejected;
  parse_segment = λ part. none;
  parse_json = λ text. none;
  stringify = λ texts. "[]";
  compare_password = λ password hash. hash == password;
  sha256 = λ text. text;
  generate_secret = λ n. "secret";
  generate_uri = λ label secret. "uri";
  encrypt = λ n text. text;
  decrypt = λ text. some text;
  verify_totp = λ n secret token. false;
  to_lower_case = λ text. text;
  random_int = λ n low high. low;
  verify_id_token = λ n token audience. none;
}

abbrev pub week : RefreshTokenTtl
week = record { expires_in = "7d"; milliseconds = 604800000 }
