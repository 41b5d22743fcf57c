-- ===== src/Servers/Admission.antt =====
-- src/servers/servers.service.ts: the resource configuration and the admission checks.
use Prim.Native.String.{[], ◌∷◌}
use mathlib.Core.List.{[], ◌∷◌}
use minepanel_backend.Common.{
  ℕ, ◌+◌, ◌-◌, ◌*◌, ◌/◌, ◌≤◌, ◌<◌, ◌≡◌, refl, arith, String, Bool, true, not, ◌&&◌, ◌||◌, Option,
  none, some, List, ltb, leb, ◌==◌, if◌then◌else◌, nat_eq, string_eq,
}
use minepanel_backend.Http.{Result, ok, err, service_unavailable, insufficient_resources}
use minepanel_backend.Daemon.{JsNumber, rational}
use minepanel_backend.Effects.{Env}
use minepanel_backend.Schema.{Server, stopped, server_status_eq}
use minepanel_backend.Docker.Config.{config_number, natural, max_safe_integer, get_or}
use minepanel_backend.Docker.Service.{HostInfo, DiskInfo}
use minepanel_backend.Text.{all_chars, is_digit, decimal_value}

-- The ratio is the exact fraction `ratio_num / ratio_den`.
pub record ResourceConfig : Type 0 where
  pub min_free_disk_mb : ℕ
  pub ratio_num : ℕ
  pub ratio_den : ℕ

abbrev host_unavailable : {A : Type 0} → Result A
host_unavailable = err (service_unavailable "Host resource information unavailable")

positive_safe : JsNumber → Option ℕ
positive_safe x = elim (natural x) [
  | none ↦ none
  | some n ↦ if ltb 0 n && leb n max_safe_integer then some n else none
]

-- finite, above 0 and at most 1
ratio_parts : JsNumber → Option (ℕ × ℕ)
ratio_parts (rational num den) = if ltb 0 num && leb num den then some (num, den) else none
ratio_parts _ = none

resource_config : Option ℕ → Option (ℕ × ℕ) → Result ResourceConfig
resource_config (some disk) (some (num, den)) =
    ok (record { min_free_disk_mb = disk; ratio_num = num; ratio_den = den })
resource_config _ _ = host_unavailable

unfoldable pub parse_resource_config : Env → Result ResourceConfig
unfolding positive_safe ratio_parts resource_config
parse_resource_config env =
    resource_config (positive_safe (config_number env "MIN_FREE_DISK_MB" (rational 2048 1)))
      (ratio_parts (config_number env "MAX_MEMORY_RATIO" (rational 9 10)))

disk_admission : Option ℕ → Option ℕ → ℕ → String → Result (Unit {0})
disk_admission (some total) (some free) required message =
    if ltb free required
    then err (insufficient_resources message "disk" free required total)
    else ok tt
disk_admission _ _ required message = host_unavailable

unfoldable pub check_disk : DiskInfo → ℕ → String → Result (Unit {0})
unfolding disk_admission
check_disk info required message =
    disk_admission info.total_disk_mb info.free_disk_mb required message

-- `Math.floor(totalRamMb * ratio)`
abbrev pub allocatable : ResourceConfig → ℕ → ℕ
allocatable config total = total * config.ratio_num / config.ratio_den

memory_admission : Option ℕ → Option ℕ → ResourceConfig → ℕ → ℕ → String → Result (Unit {0})
memory_admission (some total) (some cpus) config requested current message =
    let available = allocatable config total - current in
    if ltb available requested
    then err (insufficient_resources message "memory" available requested total)
    else ok tt
memory_admission _ _ config requested current message = host_unavailable

unfoldable pub check_memory_admission :
    HostInfo → ResourceConfig → ℕ → ℕ → String → Result (Unit {0})
unfolding memory_admission
check_memory_admission info config requested current message =
    memory_admission info.total_ram_mb info.cpu_count config requested current message

abbrev not_excluded : Option String → Server → Bool
not_excluded none r = true
not_excluded (some id) r = not (r.id == id)

-- the WHERE clause of `getCurrentAllocationMb`
abbrev counts_towards : Option String → Bool → Server → Bool
counts_towards exclude include_stopped r =
    (include_stopped || not (r.status == stopped)) && not_excluded exclude r

-- `coalesce(sum(memory_limit_mb), 0)`
unfoldable pub current_allocation_mb : Option String → Bool → List Server → ℕ
current_allocation_mb exclude include_stopped [] = 0
current_allocation_mb exclude include_stopped (r ∷ rs) =
    (if counts_towards exclude include_stopped r then r.memory_limit_mb else 0)
    + current_allocation_mb exclude include_stopped rs

unfoldable pub parse_stop_warn_seconds : Env → Result ℕ
parse_stop_warn_seconds env =
    let raw = get_or (env.config "STOP_WARN_SECONDS") "30" in
    let value = decimal_value 0 raw in
    if raw == "" || not (all_chars is_digit raw) || ltb 300 value
    then err (service_unavailable "Graceful shutdown configuration unavailable")
    else ok value

-- Room is left for `requested` beside `current` in what the host has.
abbrev pub Fits : HostInfo → ResourceConfig → ℕ → ℕ → Type 0
Fits host config requested current =
    (ram : ℕ) × (host.total_ram_mb ≡ some ram) × requested + current ≤ allocatable config ram

memory_admission-Fits :
    (total cpus : Option ℕ) (host : HostInfo) (config : ResourceConfig) (requested current : ℕ)
    (message : String)
    → host.total_ram_mb ≡ total
    → 0 < requested
    → memory_admission total cpus config requested current message ≡ ok tt
    → Fits host config requested current
unfolding memory_admission
memory_admission-Fits (some ram) (some n) host config requested current message e pos h =
    (ram, e, ground arith)
memory_admission-Fits (some ram) none host config requested current message e pos h = absurd (cc)
memory_admission-Fits none cpus host config requested current message e pos h = absurd (cc)

pub check_memory_admission-Fits :
    (host : HostInfo) (config : ResourceConfig) (requested current : ℕ) (message : String)
    → 0 < requested
    → check_memory_admission host config requested current message ≡ ok tt
    → Fits host config requested current
unfolding check_memory_admission
check_memory_admission-Fits host config requested current message pos h =
    memory_admission-Fits host.total_ram_mb host.cpu_count host config requested current message
      refl pos h
