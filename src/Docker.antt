-- ===== src/Docker.antt =====
-- The Docker wrapper of backend/internal/docker. `Types` is what crosses the boundary to the
-- Docker Engine, which is not part of this repository.
pub mod Types
pub mod Size
pub mod Build
pub mod Client
pub mod Logs
pub mod Image
pub mod Keeps
