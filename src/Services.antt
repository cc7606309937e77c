-- ===== src/Services.antt =====
-- internal/services, the mail servers' queue.
pub mod Tests
pub mod Queue
