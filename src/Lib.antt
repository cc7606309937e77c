-- ===== src/Lib.antt =====
-- wispbox: a verification library for the control daemon of the mail server, the Go code of internal/.
--
-- The daemon keeps its state in one SQLite database (internal/db). The admin panel and the webmail
-- change it through typed store operations; the delivery engine (internal/delivery) decides how each
-- domain sends; the generator (internal/configgen) renders the database into the configuration of
-- Postfix; the certificate manager (internal/certs) issues what the TLS handshakes get; the webmail
-- (internal/mailapi) signs mailboxes in, decides which From one may use and reads its folders through
-- internal/imapclient; internal/setup is the wizard of the first start; internal/auth keeps the
-- signed-in sessions, internal/security limits attempts to sign in, internal/services reads the mail
-- queue, and internal/updater reports on upgrades.
--
-- The files, and the code that each is about:
--   Base, Base/*             lists, ASCII texts, decimal numbers, Go's maps and errors, SQL over rows
--   Db/Models, Db/Tables     internal/db/models.go, internal/migrations/0001_schema.sql, the clock
--   Db/Validate              internal/db/validate.go
--   Db/Domains, Db/Mailboxes, Db/Aliases        internal/db/store_mail.go
--   Db/Relays, Db/Policies   internal/db/store_delivery.go
--   Db/Certificates          internal/db/store_certs.go
--   Db/Sessions, Db/Settings internal/db/store.go
--   Db/Admins                internal/db/store_admins.go
--   Db/Passkeys, Db/Challenges                  internal/db/store_security.go
--   Db/Addresses             what the tables of addresses satisfy after any operations
--   Delivery/Relay, Delivery/Engine             internal/delivery/delivery.go
--   Delivery/Sound           relays and policies after any operations
--   Configgen/SenderLogins   buildSenderLogins of internal/configgen/data.go
--   Configgen/Routing        buildRouting, buildTLS, buildDKIM and Validate of the same file
--   Certs/Manager            internal/certs/manager.go
--   Imapclient, Imapclient/Parse, Imapclient/Mock
--                            client.go, parse.go and mock.go of internal/imapclient
--   MailApi/Senders          allowedSenders and resolveFrom of internal/mailapi/send.go
--   MailApi/Ids, MailApi/Access                 internal/mailapi/mailapi.go
--   Admin/Core               internal/admin/core.go
--   Setup                    internal/setup/setup.go
--   Auth/Sessions            internal/auth/session.go
--   Security/RateLimit       internal/security/ratelimit.go
--   Security/Attachments     internal/security/attachments.go
--   Services/Queue           internal/services/queue.go
--   Updater                  internal/updater/updater.go
-- The Tests modules run the definitions on small inputs and apply each theorem to one.
--
-- A store operation takes the tables and gives them back beside its result, on the error paths too. A
-- method keeps the name of the Go method in lower case with underscores. An int64 id is a natural
-- number: ids count up from 1, and a request with an id below that finds no row in either. A quota and
-- a port, which may be negative, are integers. A time is a number of nanoseconds, and what the
-- database keeps of it a number of milliseconds. A text is the list of its bytes, ASCII ones, so that
-- lower case and white space are those of ASCII. An operation or a request is a step, and steps come
-- one after the other, as relations Step and Reach, which leaves out a handshake while a certificate
-- is being written. Creating the first administrator is two steps, the count and the insert, between
-- which other requests may come (Setup/Overlap).
--
-- Parameters of the model: mail.ParseAddress, the SHA-256 of a token, the HMAC, the JSON decoder,
-- base64, filepath.Join, http.DetectContentType, the hash of a password, the check of a code,
-- encryption and decryption, whether port 25 is open, the parser of a key pair, what the reader of a
-- message gives, and the rendering of a time. What DNS, the certificate authority and the disk say
-- during one attempt to issue a certificate is an argument of that attempt, and so is a fresh token or
-- handle. Loops run over lists and need no fuel, but for a number's digits, where a fuel above the
-- number is enough, and the client that reads page after page, whose fuel the theorem on it bounds.
-- The rate limiter counts in whole units of a token; the rounding of floating-point numbers is left
-- out, and so is a clock that runs back.
--
-- Not modelled: network, file and process I/O, HTTP decoding and encoding, cryptography, third-party
-- libraries, failures of the database other than the constraints that the schema states, the frontend,
-- the adapter of internal/imapclient that speaks IMAP, templates, the handlers of internal/admin, and
-- the packages acme, api, backup, branding, cli, config, dnscheck, lowmem, mailstore, netcheck,
-- smtpclient and web of internal/.
pub mod Base
pub mod Db
pub mod Delivery
pub mod Configgen
pub mod MailApi
pub mod Auth
pub mod Security
pub mod Services
pub mod Updater
pub mod Certs
pub mod Imapclient
pub mod Setup
pub mod Admin
