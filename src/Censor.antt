-- ===== src/Censor.antt =====
-- AcraCensor, the SQL firewall (acra-censor): a chain of handlers that allow or deny a query. The
-- parser of SQL and the matching of patterns against syntax trees are parameters.
pub mod Tables
pub mod Handlers
pub mod Chain
