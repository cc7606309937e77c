-- ===== src/Db.antt =====
-- internal/db: the control database. Each operation of the store is a function of the tables; the
-- statements that it runs have the meaning of Base/Rows.antt.
pub mod Tests
pub mod Models
pub mod Errors
pub mod Tables
pub mod Validate
pub mod Domains
pub mod Mailboxes
pub mod Aliases
pub mod Addresses
pub mod Relays
pub mod Policies
pub mod Certificates
pub mod Sessions
pub mod Challenges
pub mod Settings
pub mod Admins
pub mod Passkeys
