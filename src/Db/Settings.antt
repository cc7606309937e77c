-- ===== src/Db/Settings.antt =====
-- internal/db/store.go, the settings (less their updated_at, which nothing reads), the audit log and the
-- service events.
use wispbox.Base.{
  ℕ, Text, codes, Bool, List, [], ◌∷◌, ◌++◌, none, some, Result, ok, err, if◌then◌else◌, same, take,
}
use wispbox.Base.Rows.{find, exists, update, select, order_by}
use wispbox.Db.Errors.{Error, Entity, not_found}
use wispbox.Db.Models.{AuditLog, ServiceEvent}
use wispbox.Db.Tables.{Store, append, format_time}

unfoldable pub get_setting : Text → Store → Result Error Text
unfolding find same
get_setting key s = elim (find (λ e. same e.0 key) s.settings) [
  | none ↦ err (not_found Entity.setting)
  | some e ↦ ok e.1
]

unfoldable pub get_setting_default : Text → Text → Store → Text
unfolding get_setting
get_setting_default key default s = elim (get_setting key s) [ err _ ↦ default | ok v ↦ v ]

-- INSERT … ON CONFLICT(key) DO UPDATE
unfoldable pub set_setting : Text → Text → Store → Store
unfolding exists update same
set_setting key value s = record s {
  settings =
      if exists (λ e. same e.0 key) s.settings
      then update (λ e. same e.0 key) (λ e. (e.0, value)) s.settings
      else s.settings ++ (key, value) ∷ [];
}

unfoldable pub all_settings : Store → List (Text × Text)
unfolding order_by
all_settings s = order_by (λ e. e.0) s.settings

unfoldable pub is_initialized : Store → Bool
unfolding get_setting_default same
is_initialized s = same (get_setting_default (codes "initialized") (codes "false") s) (codes "true")

unfoldable pub append_audit : ℕ → AuditLog → Store → Store
append_audit now entry s = record s {
  audit_logs =
      append s.audit_logs (record entry { id = s.audit_logs.next; created_at = format_time now });
}

-- ORDER BY id DESC: ids grow with the rows.
unfoldable pub newest_first {ℓ} : {A : Type ℓ} → List A → List A
newest_first [] = []
newest_first (x ∷ xs) = newest_first xs ++ x ∷ []

unfoldable pub recent_audit : ℕ → Store → List AuditLog
unfolding newest_first
recent_audit limit s = take limit (newest_first s.audit_logs.rows)

unfoldable pub append_service_event : ℕ → ServiceEvent → Store → Store
append_service_event now ev s = record s {
  service_events =
      append s.service_events
        (record ev { id = s.service_events.next; created_at = format_time now });
}

unfoldable pub recent_service_events : ℕ → Store → List ServiceEvent
unfolding newest_first
recent_service_events limit s = take limit (newest_first s.service_events.rows)

unfoldable pub recent_service_errors : ℕ → Store → List ServiceEvent
unfolding newest_first select same
recent_service_errors limit s =
    take limit (newest_first (select (λ e. same e.status (codes "error")) s.service_events.rows))
