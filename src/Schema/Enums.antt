-- ===== src/Schema/Enums.antt =====
-- src/db/schema.ts: the pgEnum types, each with its equality test.
use mathlib.Core.Path.{◌≡◌}
use minepanel_backend.Common.{◌↔◌, Bool, true, false, arith, Equality}

-- MOD is `moderator`
pub data Role : Type 0 where
  admin moderator user : Role

pub data ServerProvider : Type 0 where
  vanilla paper purpur fabric forge : ServerProvider

pub data ServerStatus : Type 0 where
  stopped creating starting running stopping error : ServerStatus

pub data Difficulty : Type 0 where
  peaceful easy normal hard : Difficulty

pub data Gamemode : Type 0 where
  survival creative adventure spectator : Gamemode

-- OPEN, REQUEST, PRIVATE
pub data AccessType : Type 0 where
  open_access request_access private_access : AccessType

pub data ServerAccessStatus : Type 0 where
  pending approved : ServerAccessStatus

pub data ModPermission : Type 0 where
  server_lifecycle server_config plugin_management : ModPermission
  whitelist_management user_management file_manager : ModPermission

pub data UserStatus : Type 0 where
  active pending banned : UserStatus

abbrev pub role_beq : Role → Role → Bool
role_beq admin admin = true
role_beq moderator moderator = true
role_beq user user = true
role_beq _ _ = false

pub role_beq_iff : (a b : Role) → (role_beq a b ≡ true) ↔ (a ≡ b)
role_beq_iff a b = ground arith

instance abbrev pub role_eq : Equality Role
role_eq = record { same = role_beq; decides = role_beq_iff }

abbrev pub server_status_beq : ServerStatus → ServerStatus → Bool
server_status_beq stopped stopped = true
server_status_beq creating creating = true
server_status_beq starting starting = true
server_status_beq running running = true
server_status_beq stopping stopping = true
server_status_beq error error = true
server_status_beq _ _ = false

pub server_status_beq_iff : (a b : ServerStatus) → (server_status_beq a b ≡ true) ↔ (a ≡ b)
server_status_beq_iff a b = ground arith

instance abbrev pub server_status_eq : Equality ServerStatus
server_status_eq = record { same = server_status_beq; decides = server_status_beq_iff }

abbrev pub access_type_beq : AccessType → AccessType → Bool
access_type_beq open_access open_access = true
access_type_beq request_access request_access = true
access_type_beq private_access private_access = true
access_type_beq _ _ = false

pub access_type_beq_iff : (a b : AccessType) → (access_type_beq a b ≡ true) ↔ (a ≡ b)
access_type_beq_iff a b = ground arith

instance abbrev pub access_type_eq : Equality AccessType
access_type_eq = record { same = access_type_beq; decides = access_type_beq_iff }

abbrev pub access_status_beq : ServerAccessStatus → ServerAccessStatus → Bool
access_status_beq pending pending = true
access_status_beq approved approved = true
access_status_beq _ _ = false

pub access_status_beq_iff : (a b : ServerAccessStatus) → (access_status_beq a b ≡ true) ↔ (a ≡ b)
access_status_beq_iff a b = ground arith

instance abbrev pub access_status_eq : Equality ServerAccessStatus
access_status_eq = record { same = access_status_beq; decides = access_status_beq_iff }

abbrev pub mod_permission_beq : ModPermission → ModPermission → Bool
mod_permission_beq server_lifecycle server_lifecycle = true
mod_permission_beq server_config server_config = true
mod_permission_beq plugin_management plugin_management = true
mod_permission_beq whitelist_management whitelist_management = true
mod_permission_beq user_management user_management = true
mod_permission_beq file_manager file_manager = true
mod_permission_beq _ _ = false

pub mod_permission_beq_iff : (a b : ModPermission) → (mod_permission_beq a b ≡ true) ↔ (a ≡ b)
mod_permission_beq_iff a b = ground arith

instance abbrev pub mod_permission_eq : Equality ModPermission
mod_permission_eq = record { same = mod_permission_beq; decides = mod_permission_beq_iff }

abbrev pub user_status_beq : UserStatus → UserStatus → Bool
user_status_beq active active = true
user_status_beq UserStatus.pending UserStatus.pending = true
user_status_beq banned banned = true
user_status_beq _ _ = false

pub user_status_beq_iff : (a b : UserStatus) → (user_status_beq a b ≡ true) ↔ (a ≡ b)
user_status_beq_iff a b = ground arith

instance abbrev pub user_status_eq : Equality UserStatus
user_status_eq = record { same = user_status_beq; decides = user_status_beq_iff }
