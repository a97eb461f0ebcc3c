-- ===== src/Tests.antt =====
-- Sample data, and the theorems at concrete inputs.
pub mod Samples
mod Registry
mod Contracts
mod Gates
mod Traffic
mod Startup
mod Console
mod Login
mod Accounts
mod Isolation
mod Creation
mod Deletion
mod Shape
mod Sharing
mod Starting
mod Renaming
mod Listings
