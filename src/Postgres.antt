-- ===== src/Postgres.antt =====
-- The proxy of PostgreSQL (decryptor/postgresql).
pub mod Packet
pub mod Rows
pub mod Messages
pub mod Pending
pub mod Session
pub mod Bound
pub mod Registry
