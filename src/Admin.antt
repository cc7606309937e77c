-- ===== src/Admin.antt =====
-- internal/admin.
pub mod Core
pub mod Tests
