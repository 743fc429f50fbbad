-- ===== src/Store.antt =====
-- The PostgreSQL tables and transactions (src/opercerta/infrastructure/db).
pub mod Table
pub mod Schema
pub mod Tx
