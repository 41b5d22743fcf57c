-- ===== src/Daemon.antt =====
-- What src/docker/docker.service.ts sees of Dockerode, of the file system and of thrown values.
use minepanel_backend.Common.{ℕ, String, Bool, Option, List}
use minepanel_backend.Http.{Exception}

-- A caught value: an HttpException, an object with the members `code` and `statusCode` or without
-- them, or no object at all.
pub data Cause : Type 0 where
  http : Exception → Cause
  object : (code : Option String) (status_code : Option ℕ) → Cause
  other : Cause

-- The outcome of an awaited call: its value, or what it was rejected with.
pub data Reply (A : Type 0) : Type 0 where
  replied : A → Reply A
  failed : Cause → Reply A

-- The argument of `docker.createContainer`.
pub record ContainerConfig : Type 0 where
  pub name : String
  pub image : String
  pub env : List String
  pub server_id_label : String
  pub managed_label : String
  pub binds : List String
  pub memory : ℕ
  pub nano_cpus : ℕ
  pub pids_limit : ℕ
  pub host_port : ℕ
  pub privileged : Bool
  pub cap_add : List String
  pub network_mode : String
  pub restart_policy : String

-- The members of `container.inspect()` that the lifecycle reads.
pub record InspectInfo : Type 0 where
  pub id : String
  pub running : Option Bool

-- An entry of `docker.listContainers`.
pub record ContainerSummary : Type 0 where
  pub id : Option String
  pub state : Option String

-- `docker.info()`; none stands for a member that is absent or no finite positive integer.
pub record DockerInfo : Type 0 where
  pub mem_total : Option ℕ
  pub ncpu : Option ℕ

-- `fs.statfs(path)`
pub record Statfs : Type 0 where
  pub bsize : ℕ
  pub blocks : ℕ
  pub bavail : ℕ

-- `exec.inspect()`
pub record ExecState : Type 0 where
  pub running : Option Bool
  pub exit_code : Option ℕ

-- The value of `Number(text)`: NaN or an infinity, a negative number, or num / den.
pub data JsNumber : Type 0 where
  not_finite negative : JsNumber
  rational : (num den : ℕ) → JsNumber
