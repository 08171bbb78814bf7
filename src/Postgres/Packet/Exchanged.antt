-- ===== src/Postgres/Packet/Exchanged.antt =====
-- What the proxy sends for a Parse packet whose query it exchanges.
