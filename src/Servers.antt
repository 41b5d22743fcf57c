-- ===== src/Servers.antt =====
-- src/servers/servers.service.ts
pub mod Public
pub mod Admission
pub mod Statements
pub mod Graph
pub mod Shared
pub mod Create
pub mod Run
pub mod Delete
pub mod Controller
pub mod Memory
pub mod Reconcile
pub mod Held
pub mod Alone
pub mod Settles
mod Tests
