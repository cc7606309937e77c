-- ===== src/Configgen.antt =====
-- internal/configgen, which renders the mail servers' configuration from the database.
pub mod Tests
pub mod SenderLogins
pub mod Routing
