-- ===== src/MailApi.antt =====
-- internal/mailapi, what the webmail calls.
pub mod Tests
pub mod Senders
pub mod Ids
pub mod Access
