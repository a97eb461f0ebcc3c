-- ===== src/Api/Registration.antt =====
-- What becomes of an account that `handleRegister` creates.
pub mod Stored
pub mod Steps
pub mod SignedIn
