-- ===== src/Tokens.antt =====
-- Tokenization (pseudonymization/): a value of a column is replaced by a random token of its type,
-- and the token storage keeps what the token stands for.
pub mod Value
pub mod Storage
pub mod Random
pub mod Pseudo
pub mod Memory
pub mod Columns
pub mod Secure
