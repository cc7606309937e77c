-- ===== src/Db/Domains.antt =====
-- internal/db/store_mail.go, the domains.
use wispbox.Base.{
  ℕ, Text, Bool, true, ◌||◌, List, [], none, some, Result, ok, err, ◌==◌, if◌then◌else◌, same,
  to_lower, trim_space,
}
use wispbox.Base.Outcome.{checked}
use wispbox.Base.Rows.{find, delete, update, exists, count, order_by}
use wispbox.Db.Errors.{Error, Entity, not_found, already_exists}
use wispbox.Db.Models.{Domain, DomainStatus}
use wispbox.Db.Tables.{Store, append, with_rows, format_time, nocase}
use wispbox.Db.Validate.{validate_domain_name, validate_hostname, default_mail_hostname}

unfoldable pub get_domain : ℕ → Store → Result Error Domain
unfolding find
get_domain id s = elim (find (λ d. d.id == id) s.domains.rows) [
  | none ↦ err (not_found Entity.domain)
  | some d ↦ ok d
]

unfoldable pub get_domain_by_name : Text → Store → Result Error Domain
unfolding find nocase trim_space to_lower
get_domain_by_name name s =
    elim (find (λ d. nocase d.name (to_lower (trim_space name))) s.domains.rows) [
      | none ↦ err (not_found Entity.domain)
      | some d ↦ ok d
    ]

-- The columns `name` and `mail_hostname` are UNIQUE.
abbrev pub clashes_domain : Text → Text → Domain → Bool
clashes_domain name hostname d = nocase d.name name || nocase d.mail_hostname hostname

unfoldable pub insert_domain : ℕ → Text → Text → Store → Store × Result Error Domain
unfolding exists nocase get_domain
insert_domain now name hostname s =
    let s' : Store = record s {
      domains = append s.domains (record {
        id = s.domains.next;
        name = name;
        mail_hostname = hostname;
        status = DomainStatus.pending;
        created_at = format_time now;
        updated_at = format_time now;
      });
    } in
    if exists (clashes_domain name hostname) s.domains.rows
    then (s, err (already_exists Entity.domain))
    else (s', get_domain s.domains.next s')

unfoldable pub create_domain : ℕ → Text → Text → Store → Store × Result Error Domain
create_domain now text mail_hostname s =
    let name = to_lower (trim_space text) in
    let given = if same mail_hostname [] then default_mail_hostname name else mail_hostname in
    let hostname = to_lower (trim_space given) in
    checked (validate_domain_name name) s
      λ _. checked (validate_hostname hostname) s λ _. insert_domain now name hostname s

unfoldable pub update_domain_status : ℕ → ℕ → DomainStatus → Store → Store
unfolding update
update_domain_status now id status s = record s {
  domains = with_rows s.domains (
      update (λ d. d.id == id) (λ d. record d { status = status; updated_at = format_time now })
        s.domains.rows);
}

-- DELETE FROM domains, with what ON DELETE CASCADE takes along.
unfoldable pub delete_domain : ℕ → Store → Store × Result Error (Unit {0})
unfolding exists delete
delete_domain id s =
    if exists (λ d. d.id == id) s.domains.rows
    then (
      record s {
        domains = with_rows s.domains (delete (λ d. d.id == id) s.domains.rows);
        mailboxes = with_rows s.mailboxes (delete (λ m. m.domain_id == id) s.mailboxes.rows);
        aliases = with_rows s.aliases (delete (λ a. a.domain_id == id) s.aliases.rows);
        certificates =
            with_rows s.certificates (delete (λ c. c.domain_id == id) s.certificates.rows);
      },
      ok tt,
    )
    else (s, err (not_found Entity.domain))

unfoldable pub count_domains : Store → ℕ
unfolding count
count_domains s = count (λ _. true) s.domains.rows

unfoldable pub list_domains : Store → List Domain
unfolding order_by
list_domains s = order_by (λ d. to_lower d.name) s.domains.rows
