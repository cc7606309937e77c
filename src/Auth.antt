-- ===== src/Auth.antt =====
-- internal/auth, the signed-in sessions of the admin panel and of the webmail.
pub mod Tests
pub mod Sessions
