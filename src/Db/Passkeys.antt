-- ===== src/Db/Passkeys.antt =====
-- internal/db/store_security.go, the passkeys. A handle is fresh randomness, an argument here.
use wispbox.Base.{
  ℕ, Text, codes, Bool, ◌&&◌, [], Option, none, some, Result, ok, err, take, ◌==◌, if◌then◌else◌,
  same, trim_space,
}
use wispbox.Base.Outcome.{checked}
use wispbox.Base.Rows.{find, delete, update, exists, count}
use wispbox.Db.Errors.{Error, Entity, not_found, already_exists}
use wispbox.Db.Models.{Passkey, UserType}
use wispbox.Db.Tables.{Store, append, with_rows, format_time}
use wispbox.Db.Sessions.{same_user_type}
use wispbox.Db.Admins.{get_admin, update_admin_webauthn_handle}
use wispbox.Db.Mailboxes.{get_mailbox, update_mailbox_webauthn_handle}

unfoldable pub scan_passkey : Option Passkey → Result Error Passkey
scan_passkey none = err (not_found Entity.passkey)
scan_passkey (some p) = ok p

unfoldable pub get_passkey : ℕ → Store → Result Error Passkey
unfolding find scan_passkey
get_passkey id s = scan_passkey (find (λ p. p.id == id) s.passkeys.rows)

unfoldable pub get_passkey_by_credential : Text → Text → Store → Result Error Passkey
unfolding find scan_passkey same
get_passkey_by_credential rp_id credential_id s =
    scan_passkey
      (find (λ p. same p.rp_id rp_id && same p.credential_id credential_id) s.passkeys.rows)

-- The name that is stored: trimmed, not empty, 80 bytes at most.
unfoldable pub passkey_name : Text → Text
unfolding same trim_space
passkey_name text = take 80 (if same (trim_space text) [] then codes "Passkey" else trim_space text)

-- The pair of rp_id and credential_id is UNIQUE.
unfoldable pub save_passkey : ℕ → Passkey → Store → Store × Result Error Passkey
unfolding exists same passkey_name get_passkey
save_passkey now p s =
    let s' : Store = record s {
      passkeys = append s.passkeys (record p {
        id = s.passkeys.next;
        name = passkey_name p.name;
        created_at = format_time now;
        updated_at = format_time now;
        last_used_at = none;
      });
    } in
    if exists (λ q. same q.rp_id p.rp_id && same q.credential_id p.credential_id) s.passkeys.rows
    then (s, err (already_exists Entity.passkey))
    else (s', get_passkey s.passkeys.next s')

abbrev pub owned_by : UserType → ℕ → Passkey → Bool
owned_by user_type user_id p = same_user_type p.user_type user_type && p.user_id == user_id

unfoldable pub count_passkeys : UserType → ℕ → Store → ℕ
unfolding count
count_passkeys user_type user_id s = count (owned_by user_type user_id) s.passkeys.rows

unfoldable pub update_passkey_credential : ℕ → ℕ → Text → Store → Store
unfolding update
update_passkey_credential now id encrypted_credential s = record s {
  passkeys = with_rows s.passkeys (
      update (λ p. p.id == id)
        (λ p. record p {
          encrypted_credential = encrypted_credential;
          last_used_at = some (format_time now);
          updated_at = format_time now;
        })
        s.passkeys.rows);
}

unfoldable pub delete_passkey : UserType → ℕ → ℕ → Store → Store × Result Error (Unit {0})
unfolding exists delete
delete_passkey user_type user_id id s =
    let hit : Passkey → Bool = λ p. (p.id == id) && owned_by user_type user_id p in
    if exists hit s.passkeys.rows
    then (record s { passkeys = with_rows s.passkeys (delete hit s.passkeys.rows) }, ok tt)
    else (s, err (not_found Entity.passkey))

unfoldable pub ensure_webauthn_handle : ℕ → Text → UserType → ℕ → Store → Store × Result Error Text
unfolding same get_admin get_mailbox
ensure_webauthn_handle now fresh_handle UserType.admin user_id s =
    checked (get_admin user_id s) s λ a.
      if same a.webauthn_handle []
      then (update_admin_webauthn_handle now user_id fresh_handle s, ok fresh_handle)
      else (s, ok a.webauthn_handle)
ensure_webauthn_handle now fresh_handle UserType.mailbox user_id s =
    checked (get_mailbox user_id s) s λ m.
      if same m.webauthn_handle []
      then (update_mailbox_webauthn_handle now user_id fresh_handle s, ok fresh_handle)
      else (s, ok m.webauthn_handle)

unfoldable pub get_user_by_webauthn_handle : UserType → Text → Store → Result Error ℕ
unfolding find same
get_user_by_webauthn_handle UserType.admin handle s =
    elim (find (λ a. same a.webauthn_handle handle) s.admins.rows) [
      | none ↦ err (not_found Entity.admin)
      | some a ↦ ok a.id
    ]
get_user_by_webauthn_handle UserType.mailbox handle s =
    elim (find (λ m. same m.webauthn_handle handle) s.mailboxes.rows) [
      | none ↦ err (not_found Entity.mailbox)
      | some m ↦ ok m.id
    ]
