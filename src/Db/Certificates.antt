-- ===== src/Db/Certificates.antt =====
-- internal/db/store_certs.go.
pub mod Due
use wispbox.Base.{
  ℕ, Text, codes, Bool, true, List, [], Option, none, some, Result, ok, err, leb, ◌==◌,
  if◌then◌else◌, to_lower,
}
use wispbox.Base.Rows.{find, select, update, exists, order_by}
use wispbox.Db.Errors.{Error, Entity, not_found, already_exists}
use wispbox.Db.Models.{Stamp, Certificate, CertStatus}
use wispbox.Db.Tables.{Store, append, with_rows, format_time, nocase}

unfoldable pub scan_certificate : Option Certificate → Result Error Certificate
scan_certificate none = err (not_found Entity.certificate)
scan_certificate (some c) = ok c

unfoldable pub get_certificate : ℕ → Store → Result Error Certificate
unfolding find scan_certificate
get_certificate id s = scan_certificate (find (λ c. c.id == id) s.certificates.rows)

unfoldable pub get_certificate_by_hostname : Text → Store → Result Error Certificate
unfolding find scan_certificate nocase to_lower
get_certificate_by_hostname hostname s =
    scan_certificate (find (λ c. nocase c.hostname (to_lower hostname)) s.certificates.rows)

-- A domain id of 0 is stored as NULL.
unfoldable pub create_certificate : ℕ → ℕ → Text → Store → Store × Result Error Certificate
unfolding exists nocase to_lower get_certificate
create_certificate now domain_id hostname s =
    let s' : Store = record s {
      certificates = append s.certificates (record {
        id = s.certificates.next;
        domain_id = domain_id;
        hostname = to_lower hostname;
        status = CertStatus.pending;
        challenge_type = codes "http-01";
        cert_path = [];
        key_path = [];
        not_before = none;
        not_after = none;
        last_renewed_at = none;
        renew_after = none;
        last_error = [];
        created_at = format_time now;
        updated_at = format_time now;
      });
    } in
    if exists (λ c. nocase c.hostname (to_lower hostname)) s.certificates.rows
    then (s, err (already_exists Entity.certificate))
    else (s', get_certificate s.certificates.next s')

unfoldable pub list_certificates : Store → List Certificate
unfolding order_by to_lower
list_certificates s = order_by (λ c. to_lower c.hostname) s.certificates.rows

unfoldable pub set_certificate : ℕ → (Certificate → Certificate) → Store → Store
unfolding update
set_certificate id change s = record s {
  certificates = with_rows s.certificates (update (λ c. c.id == id) change s.certificates.rows);
}

unfoldable pub update_certificate_status : ℕ → ℕ → CertStatus → Text → Store → Store
unfolding set_certificate
update_certificate_status now id status last_error =
    set_certificate id
      (λ c. record c { status = status; last_error = last_error; updated_at = format_time now })

unfoldable pub mark_certificate_issued : ℕ → ℕ → Text → Text → Text → ℕ → ℕ → ℕ → Store → Store
unfolding set_certificate
mark_certificate_issued now id challenge_type cert_path key_path not_before not_after renew_after =
    set_certificate id (λ c. record c {
      status = CertStatus.active;
      challenge_type = challenge_type;
      cert_path = cert_path;
      key_path = key_path;
      not_before = some (format_time not_before);
      not_after = some (format_time not_after);
      last_renewed_at = some (format_time now);
      renew_after = some (format_time renew_after);
      last_error = [];
      updated_at = format_time now;
    })

unfoldable pub set_certificate_renew_after : ℕ → ℕ → ℕ → Store → Store
unfolding set_certificate
set_certificate_renew_after now id at =
    set_certificate id
      (λ c. record c { renew_after = some (format_time at); updated_at = format_time now })

-- renew_after IS NULL OR renew_after = '' OR renew_after <= now
abbrev pub due_at : Stamp → Certificate → Bool
due_at now c = elim c.renew_after [ none ↦ true | some at ↦ leb at now ]

unfoldable pub certificates_due_for_renewal : ℕ → Store → List Certificate
unfolding select order_by to_lower
certificates_due_for_renewal now s =
    order_by (λ c. to_lower c.hostname) (select (due_at (format_time now)) s.certificates.rows)
