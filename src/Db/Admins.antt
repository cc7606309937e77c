-- ===== src/Db/Admins.antt =====
-- internal/db/store_admins.go
use wispbox.Base.{
  ℕ, Text, Bool, true, false, [], Option, none, some, Result, ok, err, ◌==◌, if◌then◌else◌,
  to_lower, trim_space,
}
use wispbox.Base.Rows.{find, update, exists, count}
use wispbox.Db.Errors.{Error, Entity, not_found, unique_violation}
use wispbox.Db.Models.{Admin}
use wispbox.Db.Tables.{Store, append, with_rows, format_time, nocase}

unfoldable pub scan_admin : Option Admin → Result Error Admin
scan_admin none = err (not_found Entity.admin)
scan_admin (some a) = ok a

unfoldable pub get_admin : ℕ → Store → Result Error Admin
unfolding find scan_admin
get_admin id s = scan_admin (find (λ a. a.id == id) s.admins.rows)

unfoldable pub get_admin_by_username : Text → Store → Result Error Admin
unfolding find nocase to_lower trim_space scan_admin
get_admin_by_username username s =
    scan_admin (find (λ a. nocase a.username (to_lower (trim_space username))) s.admins.rows)

-- `username` is UNIQUE COLLATE NOCASE.
unfoldable pub create_admin : ℕ → Text → Text → Store → Store × Result Error Admin
unfolding exists nocase get_admin
create_admin now username password_hash s =
    let name = to_lower (trim_space username) in
    let s' : Store = record s {
      admins = append s.admins (record {
        id = s.admins.next;
        username = name;
        password_hash = password_hash;
        webauthn_handle = [];
        two_factor_enabled = false;
        encrypted_totp_secret = [];
        created_at = format_time now;
        updated_at = format_time now;
      });
    } in
    if exists (λ a. nocase a.username name) s.admins.rows
    then (s, err unique_violation)
    else (s', get_admin s.admins.next s')

unfoldable pub count_admins : Store → ℕ
unfolding count
count_admins s = count (λ _. true) s.admins.rows

-- UPDATE admins SET …, updated_at = ? WHERE id = ?
unfoldable pub set_admin : ℕ → (Admin → Admin) → Store → Store
unfolding update
set_admin id change s = record s {
  admins = with_rows s.admins (update (λ a. a.id == id) change s.admins.rows);
}

unfoldable pub update_admin_password : ℕ → ℕ → Text → Store → Store
unfolding set_admin
update_admin_password now id password_hash =
    set_admin id (λ a. record a { password_hash = password_hash; updated_at = format_time now })

unfoldable pub update_admin_totp : ℕ → ℕ → Bool → Text → Store → Store
unfolding set_admin
update_admin_totp now id enabled secret = set_admin id (λ a. record a {
  two_factor_enabled = enabled;
  encrypted_totp_secret = secret;
  updated_at = format_time now;
})

unfoldable pub update_admin_webauthn_handle : ℕ → ℕ → Text → Store → Store
unfolding set_admin
update_admin_webauthn_handle now id handle =
    set_admin id (λ a. record a { webauthn_handle = handle; updated_at = format_time now })
