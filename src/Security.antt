-- ===== src/Security.antt =====
-- internal/security, the limits on what clients may do.
pub mod Tests
pub mod RateLimit
pub mod Attachments
