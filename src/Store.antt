-- ===== src/Store.antt =====
-- backend/internal/store/sqlite.go: the SQL statements as functions on the tables, in `Sql`, and
-- the methods of `Store`, in `Users` and `Servers`.
pub mod Sql
pub mod Users
pub mod Servers
pub mod Keeps
pub mod Present
pub mod Made
pub mod Writes
pub mod Calm
pub mod Reads
pub mod Listing
pub mod Valid
pub mod Methods
pub mod Counts
