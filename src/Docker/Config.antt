-- ===== src/Docker/Config.antt =====
-- src/docker/docker.service.ts: `readDockerConfig` and the checks and texts of a new container.
use Prim.Native.Char.{code}
use Prim.Native.String.{[], ◌∷◌}
use mathlib.Core.List.{[], ◌∷◌}
use minepanel_backend.Common.{
  ℕ, ◌%◌, ◌/◌, String, Bool, true, false, not, ◌&&◌, ◌||◌, Option, none, some, any, ltb, leb, ◌==◌,
  if◌then◌else◌, nat_eq, string_eq, option_eq,
}
use minepanel_backend.Http.{Result, ok, err, bad_request}
use minepanel_backend.Daemon.{JsNumber, rational}
use minepanel_backend.Effects.{Env}
use minepanel_backend.Docker.Image.{is_image}
use minepanel_backend.Text.{trim, split_path}

infixl 5 ◌>>=◌ ◌>>◌
abbrev pub ◌>>=◌ : {A B : Type 0} → Result A → (A → Result B) → Result B
ok a >>= f = f a
err e >>= f = err e

abbrev pub ◌>>◌ : {B : Type 0} → Result (Unit {0}) → Result B → Result B
m >> k = m >>= λ _. k

-- `if (test) throw new BadRequestException(message);`
abbrev pub reject_if : Bool → String → Result (Unit {0})
reject_if true message = err (bad_request message)
reject_if false message = ok tt

pub record DockerConfig : Type 0 where
  pub mc_data_path : String
  pub mc_data_bind_source : String
  pub network : String
  pub image : String
  pub cpu_nano_cpus : ℕ
  pub pids_limit : ℕ
  pub port_min : ℕ
  pub port_max : ℕ

abbrev pub get_or {ℓ} : {A : Type ℓ} → Option A → A → A
get_or none d = d
get_or (some a) d = a

-- the value of a JavaScript number that is a natural number
abbrev pub natural : JsNumber → Option ℕ
natural (rational num den) = if num % den == 0 then some (num / den) else none
natural _ = none

abbrev pub max_safe_integer : ℕ
max_safe_integer = 9007199254740991

-- `Number.isSafeInteger(x) && x >= lo && x <= hi`, with its value
pub safe_in_range : ℕ → ℕ → JsNumber → Option ℕ
safe_in_range lo hi x = elim (natural x) [
  | none ↦ none
  | some n ↦ if leb n max_safe_integer && leb lo n && leb n hi then some n else none
]

abbrev has_dot_segment : String → Bool
has_dot_segment path = any (λ seg. seg == "." || seg == "..") (split_path path)

abbrev is_absolute : String → Bool
is_absolute [] = false
is_absolute (c ∷ s) = code c == b'/'

ends_in_latest : String → Bool
ends_in_latest [] = false
ends_in_latest (c ∷ s) = ◌==◌ {A = String} (c ∷ s) ":latest" || ends_in_latest s

-- `network.startsWith('container:')`
has_prefix : String → String → Bool
has_prefix [] s = true
has_prefix (c ∷ p) [] = false
has_prefix (c ∷ p) (d ∷ s) = code c == code d && has_prefix p s

named_network : String → Bool
named_network network =
    not (network == "host" || network == "none" || has_prefix "container:" network)

abbrev default_minecraft_image : String
default_minecraft_image =
    "itzg/minecraft-server:2026.8.2@sha256:efa878ddb49cf5251b2e5f2ad71b08fd2f7236c1f7907433f6697258b31d2ce4"

-- `Number(configService.get(key, fallback))`
unfoldable pub config_number : Env → String → JsNumber → JsNumber
config_number env key fallback = elim (env.config key) [
  | none ↦ fallback
  | some text ↦ env.number text
]

or_reject : {A : Type 0} → Option A → String → Result A
or_reject none message = err (bad_request message)
or_reject (some a) message = ok a

-- the two limits, whose failures share one message
read_limits : Env → Result (ℕ × ℕ)
read_limits env =
    let message : String =
      "MC_CPU_NANO_CPUS must be 100000000-64000000000 and MC_PIDS_LIMIT 128-32768" in
    do
      cpu ←
          or_reject
            (safe_in_range 100000000 64000000000
              (config_number env "MC_CPU_NANO_CPUS" (rational 2000000000 1)))
            message
      pids ←
          or_reject (safe_in_range 128 32768 (config_number env "MC_PIDS_LIMIT" (rational 512 1)))
            message
      ok (cpu, pids)

-- the port range: integers with 1 ≤ min ≤ max ≤ 65535
read_ports : Env → Result (ℕ × ℕ)
read_ports env =
    let message : String = "Invalid MC_PORT_MIN/MC_PORT_MAX configuration" in
    do
      lo ← or_reject (natural (config_number env "MC_PORT_MIN" (rational 25565 1))) message
      hi ← or_reject (natural (config_number env "MC_PORT_MAX" (rational 25665 1))) message
      reject_if (ltb lo 1 || ltb 65535 hi || ltb hi lo) message
      ok (lo, hi)

-- the checks of MC_DATA_PATH
read_data_path : Env → Result String
read_data_path env = do
  let raw = get_or (env.config "MC_DATA_PATH") "/mc-data"
  reject_if (not (raw == trim raw)) "MC_DATA_PATH must not have surrounding whitespace"
  reject_if (raw == "") "MC_DATA_PATH is not configured"
  reject_if (not (is_absolute raw)) "MC_DATA_PATH must be an absolute path"
  reject_if (has_dot_segment raw) "MC_DATA_PATH must not contain . or .. segments"
  ok raw

-- the checks of MC_DATA_BIND_SOURCE
read_bind_source : Env → String → Result String
read_bind_source env data_path = do
  let raw = get_or (env.config "MC_DATA_BIND_SOURCE") data_path
  reject_if (not (raw == trim raw)) "MC_DATA_BIND_SOURCE must not have surrounding whitespace"
  reject_if (raw == "") "MC_DATA_BIND_SOURCE is not configured"
  reject_if (has_dot_segment raw) "MC_DATA_BIND_SOURCE must not contain . or .. segments"
  ok raw

unfoldable pub read_docker_config : Env → Result DockerConfig
unfolding read_data_path read_bind_source named_network ends_in_latest has_prefix read_limits
    read_ports config_number safe_in_range or_reject
read_docker_config env = do
  data_path ← read_data_path env
  bind_source ← read_bind_source env data_path
  let network = trim (get_or (env.config "DOCKER_NETWORK") "minepanel_network")
  reject_if (network == "") "DOCKER_NETWORK is not configured"
  reject_if (not (named_network network)) "DOCKER_NETWORK must be a named network"
  let raw_image = get_or (env.config "MINECRAFT_IMAGE") default_minecraft_image
  let image = trim raw_image
  reject_if (ends_in_latest image || not (is_image image))
      "MINECRAFT_IMAGE must be a versioned tagged image reference"
  limits ← read_limits env
  reject_if (not (raw_image == image)) "MINECRAFT_IMAGE must not have surrounding whitespace"
  ports ← read_ports env
  ok (record {
    mc_data_path = env.resolve_path data_path;
    mc_data_bind_source = bind_source;
    network = network;
    image = image;
    cpu_nano_cpus = limits.0;
    pids_limit = limits.1;
    port_min = ports.0;
    port_max = ports.1;
  })
