-- ===== src/Certs.antt =====
-- internal/certs.
pub mod Manager
pub mod Tests
