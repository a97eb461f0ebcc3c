-- ===== src/Api.antt =====
-- backend/internal/api: the HTTP handlers as actions, from the request to the response.
pub mod Http
pub mod Answers
pub mod Lookup
pub mod Shape
pub mod Cors
pub mod Base64
pub mod Session
pub mod Views
pub mod Servers
pub mod Auth
pub mod Admin
pub mod Console
pub mod Keeps
pub mod Paths
pub mod Routes
pub mod Registry
pub mod Gate
pub mod Ownership
pub mod Registration
pub mod Login
pub mod Isolation
