-- ===== src/Schema.antt =====
-- src/db/schema.ts: the tables as records of their columns, and the database as its tables.
-- A text column is a String, a nullable column an Option, a timestamp its epoch milliseconds.
mod Enums
pub use Enums.*
use minepanel_backend.Common.{ℕ, String, Bool, Option, List}

pub record User : Type 0 where
  pub id : String
  pub email : String
  pub username : String
  pub password_hash : Option String
  pub google_id : Option String
  pub github_id : Option String
  pub role : Role
  pub status : UserStatus
  pub totp_secret : Option String
  pub totp_enabled : Bool
  pub totp_backup_codes : Option String
  pub temp_password_hash : Option String
  pub temp_password_expires_at : Option ℕ
  pub must_change_password : Bool
  pub minecraft_uuid : Option String
  pub minecraft_name : Option String
  pub minecraft_verified : Bool
  pub created_at : ℕ
  pub updated_at : ℕ

pub record RefreshToken : Type 0 where
  pub id : String
  pub token_id_hash : String
  pub user_id : String
  pub expires_at : ℕ
  pub created_at : ℕ

pub record OauthChallenge : Type 0 where
  pub id : String
  pub provider : String
  pub challenge_hash : String
  pub expires_at : ℕ
  pub created_at : ℕ

pub record SetupState : Type 0 where
  pub id : String
  pub initial_admin_created : Bool
  pub created_at : ℕ
  pub updated_at : ℕ

pub record Server : Type 0 where
  pub id : String
  pub name : String
  pub provider : ServerProvider
  pub version : String
  pub port : ℕ
  pub container_id : Option String
  pub status : ServerStatus
  pub max_players : ℕ
  pub difficulty : Difficulty
  pub gamemode : Gamemode
  pub pvp : Bool
  pub memory_limit_mb : ℕ
  pub motd : Option String
  pub level_seed : Option String
  pub online_mode : Bool
  pub view_distance : ℕ
  pub allow_flight : Bool
  pub world_path : Option String
  pub rcon_password : Option String
  pub owner_id : String
  pub access_type : AccessType
  pub created_at : ℕ
  pub updated_at : ℕ

pub record ServerAccess : Type 0 where
  pub id : String
  pub user_id : String
  pub server_id : String
  pub status : ServerAccessStatus
  pub created_at : ℕ
  pub approved_at : Option ℕ

pub record ModPermissionRow : Type 0 where
  pub id : String
  pub user_id : String
  pub permission : ModPermission
  pub server_id : Option String
  pub created_at : ℕ

pub record Db : Type 0 where
  pub users : List User
  pub refresh_tokens : List RefreshToken
  pub oauth_challenges : List OauthChallenge
  pub setup_state : List SetupState
  pub servers : List Server
  pub server_access : List ServerAccess
  pub mod_permissions : List ModPermissionRow
