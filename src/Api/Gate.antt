-- ===== src/Api/Gate.antt =====
-- What the gates in front of the endpoints, `requireAuth` and `requireAdmin` of auth.go and
-- admin.go, let through.
pub mod Quiet
pub mod Refusal
pub mod Identity
pub mod Passes
pub mod Hidden
