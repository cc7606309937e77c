-- ===== src/Db/Mailboxes.antt =====
-- internal/db/store_mail.go, the mailboxes.
use wispbox.Base.{
  ℕ, Text, Bool, true, false, ◌&&◌, ◌||◌, List, [], ◌++◌, Option, none, some, Result, ok, ltb, err,
  ◌==◌, if◌then◌else◌, to_lower, trim_space, ℤ, at_least_zero, ◌∷◌,
}
use wispbox.Base.Outcome.{checked}
use wispbox.Base.Rows.{find, select, delete, update, exists, count, order_by}
use wispbox.Db.Errors.{Error, Entity, not_found, already_exists}
use wispbox.Db.Models.{Mailbox}
use wispbox.Db.Tables.{Store, append, with_rows, format_time, nocase}
use wispbox.Db.Validate.{validate_local_part}
use wispbox.Db.Domains.{get_domain}

unfoldable pub scan_mailbox : Option Mailbox → Result Error Mailbox
scan_mailbox none = err (not_found Entity.mailbox)
scan_mailbox (some m) = ok m

unfoldable pub get_mailbox : ℕ → Store → Result Error Mailbox
unfolding find scan_mailbox
get_mailbox id s = scan_mailbox (find (λ m. m.id == id) s.mailboxes.rows)

unfoldable pub get_mailbox_by_email : Text → Store → Result Error Mailbox
unfolding find scan_mailbox nocase to_lower trim_space
get_mailbox_by_email email s =
    scan_mailbox (find (λ m. nocase m.email (to_lower (trim_space email))) s.mailboxes.rows)

-- 0 stands for every domain.
unfoldable pub list_mailboxes : ℕ → Store → List Mailbox
unfolding select order_by to_lower
list_mailboxes domain_id s =
    order_by (λ m. to_lower m.email)
      (if ltb 0 domain_id
        then select (λ m. m.domain_id == domain_id) s.mailboxes.rows
        else s.mailboxes.rows)

unfoldable pub count_mailboxes : ℕ → Store → ℕ
unfolding count
count_mailboxes domain_id s =
    if ltb 0 domain_id
    then count (λ m. m.domain_id == domain_id) s.mailboxes.rows
    else count (λ _. true) s.mailboxes.rows

abbrev pub address : Text → Text → Text
address local_part domain = local_part ++ b'@' ∷ domain

-- `email` is UNIQUE, and so is the pair of domain and local part.
abbrev pub clashes_mailbox : ℕ → Text → Text → Mailbox → Bool
clashes_mailbox domain_id local_part email m =
    nocase m.email email || ((m.domain_id == domain_id) && nocase m.local_part local_part)

unfoldable pub insert_mailbox :
    ℕ → ℕ → Text → Text → Text → ℤ → Store → Store × Result Error Mailbox
unfolding exists nocase get_mailbox
insert_mailbox now domain_id local_part email password_hash quota_mb s =
    let s' : Store = record s {
      mailboxes = append s.mailboxes (record {
        id = s.mailboxes.next;
        domain_id = domain_id;
        local_part = local_part;
        email = email;
        password_hash = password_hash;
        webauthn_handle = [];
        two_factor_enabled = false;
        encrypted_totp_secret = [];
        encrypted_passkey_password = [];
        quota_mb = quota_mb;
        enabled = true;
        created_at = format_time now;
        updated_at = format_time now;
      });
    } in
    if exists (clashes_mailbox domain_id local_part email) s.mailboxes.rows
    then (s, err (already_exists Entity.mailbox))
    else (s', get_mailbox s.mailboxes.next s')

unfoldable pub create_mailbox : ℕ → ℕ → Text → Text → ℤ → Store → Store × Result Error Mailbox
create_mailbox now domain_id text password_hash quota_mb s =
    let local_part = to_lower (trim_space text) in
    checked (validate_local_part local_part) s λ _. checked (get_domain domain_id s) s λ dom.
      insert_mailbox now domain_id local_part (address local_part dom.name) password_hash
        (at_least_zero quota_mb) s

-- UPDATE mailboxes SET …, updated_at = ? WHERE id = ?
unfoldable pub set_mailbox : ℕ → (Mailbox → Mailbox) → Store → Store
unfolding update
set_mailbox id change s = record s {
  mailboxes = with_rows s.mailboxes (update (λ m. m.id == id) change s.mailboxes.rows);
}

unfoldable pub update_mailbox : ℕ → ℕ → ℤ → Bool → Store → Store
unfolding set_mailbox
update_mailbox now id quota_mb enabled =
    set_mailbox id
      (λ m. record m { quota_mb = quota_mb; enabled = enabled; updated_at = format_time now })

unfoldable pub update_mailbox_password : ℕ → ℕ → Text → Store → Store
unfolding set_mailbox
update_mailbox_password now id password_hash =
    set_mailbox id (λ m. record m { password_hash = password_hash; updated_at = format_time now })

unfoldable pub update_mailbox_password_and_passkey_secret : ℕ → ℕ → Text → Text → Store → Store
unfolding set_mailbox
update_mailbox_password_and_passkey_secret now id password_hash secret = set_mailbox id (λ m.
    record m {
      password_hash = password_hash;
      encrypted_passkey_password = secret;
      updated_at = format_time now;
    })

unfoldable pub update_mailbox_totp : ℕ → ℕ → Bool → Text → Store → Store
unfolding set_mailbox
update_mailbox_totp now id enabled secret = set_mailbox id (λ m. record m {
  two_factor_enabled = enabled;
  encrypted_totp_secret = secret;
  updated_at = format_time now;
})

unfoldable pub update_mailbox_webauthn_handle : ℕ → ℕ → Text → Store → Store
unfolding set_mailbox
update_mailbox_webauthn_handle now id handle =
    set_mailbox id (λ m. record m { webauthn_handle = handle; updated_at = format_time now })

unfoldable pub delete_mailbox : ℕ → Store → Store × Result Error (Unit {0})
unfolding exists delete
delete_mailbox id s =
    if exists (λ m. m.id == id) s.mailboxes.rows
    then (
      record s { mailboxes = with_rows s.mailboxes (delete (λ m. m.id == id) s.mailboxes.rows) },
      ok tt,
    )
    else (s, err (not_found Entity.mailbox))
