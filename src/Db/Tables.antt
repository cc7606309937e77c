-- ===== src/Db/Tables.antt =====
-- The tables of internal/migrations/0001_schema.sql, and the clock.
use wispbox.Base.{
  ℕ, ◌+◌, ◌*◌, ◌/◌, Text, Bool, true, List, [], ◌∷◌, ◌++◌, none, to_lower, same, codes,
}
use wispbox.Db.Models.{
  Stamp, Admin, Domain, Mailbox, Alias, OutboundRelay, OutboundPolicy, PolicyScope, DeliveryMode,
  Certificate, Session, Passkey, AuthChallenge, AuditLog, ServiceEvent,
}

-- A table whose key is AUTOINCREMENT: `next` is the id that the next row gets, and no id comes back.
pub record Table (R : Type 0) : Type 0 where
  pub rows : List R
  pub next : ℕ

pub record Store : Type 0 where
  pub settings : List (Text × Text)
  pub sessions : List Session
  pub challenges : List AuthChallenge
  pub admins : Table Admin
  pub domains : Table Domain
  pub mailboxes : Table Mailbox
  pub aliases : Table Alias
  pub relays : Table OutboundRelay
  pub policies : Table OutboundPolicy
  pub certificates : Table Certificate
  pub passkeys : Table Passkey
  pub audit_logs : Table AuditLog
  pub service_events : Table ServiceEvent

abbrev pub append : {R : Type 0} → Table R → R → Table R
append t r = record { rows = t.rows ++ r ∷ []; next = t.next + 1 }

abbrev pub with_rows : {R : Type 0} → Table R → List R → Table R
with_rows t rows = record { rows = rows; next = t.next }

-- The database after the migration: its two INSERT statements have run.
abbrev no_rows : {R : Type 0} → Table R
no_rows = record { rows = []; next = 1 }

abbrev pub fresh : Stamp → Store
fresh now = record {
  settings = (codes "initialized", codes "false") ∷ [];
  sessions = [];
  challenges = [];
  admins = no_rows;
  domains = no_rows;
  mailboxes = no_rows;
  aliases = no_rows;
  relays = no_rows;
  policies = record {
    rows =
        record {
          id = 1;
          scope_type = PolicyScope.global;
          scope_id = 0;
          mode = DeliveryMode.direct;
          relay_id = none;
          enabled = true;
          created_at = now;
          updated_at = now;
        }
        ∷ [];
    next = 2;
  };
  certificates = no_rows;
  passkeys = no_rows;
  audit_logs = no_rows;
  service_events = no_rows;
}

-- FormatTime and ParseTime: the layout keeps milliseconds of a time in nanoseconds.
abbrev pub format_time : ℕ → Stamp
format_time t = t / 1000000

abbrev pub parse_time : Stamp → ℕ
parse_time s = s * 1000000

-- x = y on a column with COLLATE NOCASE
unfoldable pub nocase : Text → Text → Bool
nocase x y = same (to_lower x) (to_lower y)
