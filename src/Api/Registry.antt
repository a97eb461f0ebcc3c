-- ===== src/Api/Registry.antt =====
-- What every request preserves of the registry.
pub mod WellFormed
pub mod Admins
pub mod Volumes
pub mod Capacity
pub mod PortRange
