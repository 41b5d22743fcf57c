-- ===== src/Guards.antt =====
-- src/auth/guards/, src/common/guards/: what runs before a handler.
pub mod Roles
pub mod Permissions
pub mod Jwt
pub mod PreAuth
pub mod Csrf
