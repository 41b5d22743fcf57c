-- ===== src/Users.antt =====
-- src/users/: what is shown of an account.
pub mod Public
pub mod Statements
pub mod Service
pub mod Conditional
pub mod Credentials
pub mod PasswordChange
mod Tests
