-- ===== src/Users/Public.antt =====
-- src/users/public-user.ts: the user without its secrets.
use minepanel_backend.Common.{ℕ, String, Bool, Option}
use minepanel_backend.Schema.{User, Role, UserStatus}

pub record PublicUser : Type 0 where
  pub id : String
  pub email : String
  pub username : String
  pub google_id : Option String
  pub github_id : Option String
  pub role : Role
  pub status : UserStatus
  pub totp_enabled : Bool
  pub temp_password_expires_at : Option ℕ
  pub must_change_password : Bool
  pub minecraft_uuid : Option String
  pub minecraft_name : Option String
  pub minecraft_verified : Bool
  pub created_at : ℕ
  pub updated_at : ℕ

-- `toPublicUser`
abbrev pub to_public_user : User → PublicUser
to_public_user u = record {
  id = u.id;
  email = u.email;
  username = u.username;
  google_id = u.google_id;
  github_id = u.github_id;
  role = u.role;
  status = u.status;
  totp_enabled = u.totp_enabled;
  temp_password_expires_at = u.temp_password_expires_at;
  must_change_password = u.must_change_password;
  minecraft_uuid = u.minecraft_uuid;
  minecraft_name = u.minecraft_name;
  minecraft_verified = u.minecraft_verified;
  created_at = u.created_at;
  updated_at = u.updated_at;
}
