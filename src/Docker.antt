-- ===== src/Docker.antt =====
-- src/docker: DockerService.
pub mod Errors
pub mod Image
pub mod Config
pub mod Container
pub mod Service
mod Tests
