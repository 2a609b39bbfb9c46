-- ===== src/Sql.antt =====
-- infra/db/postgresx/util.go.
pub mod Compact
