-- ===== src/Auth/Dto.antt =====
-- src/auth/dto/: the bodies of the requests, after their validation.
use minepanel_backend.Common.{String, Option}

pub record CreateUserDto : Type 0 where
  pub email : String
  pub username : String
  pub password : String

pub record LoginUserDto : Type 0 where
  pub identifier : String
  pub password : String

pub record UpdatePasswordDto : Type 0 where
  pub old_password : String
  pub new_password : String

pub record EditUserDto : Type 0 where
  pub username : Option String
