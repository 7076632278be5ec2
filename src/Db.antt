-- ===== src/Db.antt =====
-- backend/db/: the tables and what is done to them.
pub mod Models
pub mod Repository
