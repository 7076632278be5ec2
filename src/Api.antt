-- ===== src/Api.antt =====
-- backend/api/: the HTTP surface.
pub mod RateLimit
pub mod Auth
pub mod Intent
pub mod Dashboard
