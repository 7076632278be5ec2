-- ===== src/Security.antt =====
-- backend/security/: what guards the users' exchange credentials.
pub mod KeyValidation
pub mod Envelope
pub mod Ephemeral
pub mod Kms
