-- ===== src/Docker/Container.antt =====
-- src/docker/docker.service.ts: the checks and texts of a new container.
use Prim.Native.String
use Prim.Native.Char.{code}
use Prim.Native.String.{[], ◌∷◌}
use mathlib.Core.List.{[], ◌∷◌}
use minepanel_backend.Common.{
  ℕ, ◌*◌, String, Bool, true, false, ◌&&◌, ◌||◌, Option, none, some, List, ◌++◌, ltb, leb, ◌==◌,
  if◌then◌else◌, nat_eq, string_eq,
}
use minepanel_backend.Http.{Result, ok, err, bad_request}
use minepanel_backend.Daemon.{ContainerConfig}
use minepanel_backend.Schema.{
  Server, ServerProvider, vanilla, paper, purpur, fabric, forge, Difficulty, peaceful, easy, normal,
  hard, Gamemode, survival, creative, adventure, spectator,
}
use minepanel_backend.Docker.Config.{DockerConfig, ◌>>=◌, ◌>>◌, reject_if}
use minepanel_backend.Text.{
  trim, drop_separators, replace_breaks, decimal, all_chars, count_chars, is_alnum, classes, concat,
}

abbrev pub min_memory_mb : ℕ
min_memory_mb = 512

unfoldable pub validate_server_for_create : Server → DockerConfig → Result (Unit {0})
validate_server_for_create server config = do
  reject_if (ltb server.port config.port_min || ltb config.port_max server.port) (
      concat (
        "Port "
        ∷ decimal server.port
        ∷ " is outside the allowed range "
        ∷ decimal config.port_min
        ∷ "-"
        ∷ decimal config.port_max
        ∷ []))
  reject_if (ltb server.memory_limit_mb min_memory_mb) "Memory limit must be at least 512 MB"
  reject_if (server.version == "" || trim server.version == "") "Server version is required"
  ok tt

is_name_char : ℕ → Bool
is_name_char c = is_alnum c || c == b'_' || c == b'.' || c == b'-'

-- `/^[a-zA-Z0-9][a-zA-Z0-9_.-]{0,63}$/`
unfoldable pub is_container_name : String → Bool
unfolding is_name_char classes
is_container_name [] = false
is_container_name (c ∷ s) = is_alnum (code c) && all_chars is_name_char s && leb (count_chars s) 63

unfoldable pub resolve_data_dir : String → String → Result String
resolve_data_dir bind_source server_id =
    if is_container_name server_id
    then ok (String.◌++◌ (drop_separators bind_source) (String.◌++◌ "/" server_id))
    else err (bad_request "Invalid server id")

provider_text : ServerProvider → String
provider_text vanilla = "VANILLA"
provider_text paper = "PAPER"
provider_text purpur = "PURPUR"
provider_text fabric = "FABRIC"
provider_text forge = "FORGE"

-- `difficulty.toLowerCase()`
difficulty_text : Difficulty → String
difficulty_text peaceful = "peaceful"
difficulty_text easy = "easy"
difficulty_text normal = "normal"
difficulty_text hard = "hard"

-- `gamemode.toLowerCase()`
gamemode_text : Gamemode → String
gamemode_text survival = "survival"
gamemode_text creative = "creative"
gamemode_text adventure = "adventure"
gamemode_text spectator = "spectator"

abbrev flag_text : Bool → String
flag_text true = "TRUE"
flag_text false = "FALSE"

-- `if (value) env.push(...)` for a number: 0 is false
abbrev when_positive : ℕ → String → List String
when_positive n name = if n == 0 then [] else String.◌++◌ name (decimal n) ∷ []

-- for a nullable text: null and the empty text are false
abbrev when_text : Option String → String → List String
when_text none name = []
when_text (some text) name = if text == "" then [] else String.◌++◌ name (replace_breaks text) ∷ []

unfoldable pub build_env : Server → List String
unfolding provider_text difficulty_text gamemode_text
build_env server =
    ("EULA=TRUE"
      ∷ "ENABLE_RCON=TRUE"
      ∷ String.◌++◌ "TYPE=" (provider_text server.provider)
      ∷ String.◌++◌ "VERSION=" server.version
      ∷ String.◌++◌ "MEMORY=" (String.◌++◌ (decimal server.memory_limit_mb) "M")
      ∷ [])
    ++ (when_positive server.max_players "MAX_PLAYERS="
        ++ ((String.◌++◌ "DIFFICULTY=" (difficulty_text server.difficulty)
              ∷ String.◌++◌ "MODE=" (gamemode_text server.gamemode)
              ∷ String.◌++◌ "ONLINE_MODE=" (flag_text server.online_mode)
              ∷ [])
            ++ (when_positive server.view_distance "VIEW_DISTANCE="
                ++ ((String.◌++◌ "ALLOW_FLIGHT=" (flag_text server.allow_flight)
                      ∷ String.◌++◌ "PVP=" (flag_text server.pvp)
                      ∷ [])
                    ++ (when_text server.motd "MOTD=" ++ when_text server.level_seed "SEED=")))))

-- the part of `createContainer` before the daemon is called
unfoldable pub container_config : DockerConfig → Server → Result ContainerConfig
container_config config server = do
  validate_server_for_create server config
  data_dir ← resolve_data_dir config.mc_data_bind_source server.id
  ok (record {
    name = String.◌++◌ "mc-" server.id;
    image = config.image;
    env = build_env server;
    server_id_label = server.id;
    managed_label = "true";
    binds = String.◌++◌ data_dir ":/data" ∷ [];
    memory = server.memory_limit_mb * 1024 * 1024;
    nano_cpus = config.cpu_nano_cpus;
    pids_limit = config.pids_limit;
    host_port = server.port;
    privileged = false;
    cap_add = [];
    network_mode = config.network;
    restart_policy = "unless-stopped";
  })
