-- ===== src/Db/Certificates/Due.antt =====
-- When a certificate is up for renewal.
use wispbox.Base.{
  ap, subst, ℕ, ◌≤◌, Text, true, ◌==◌, to_lower, arith, ◌≡◌, inl, inr, In, Bool-cases, some,
}
use wispbox.Base.Rows.{In-order_by, In-select, In-update, select, update, In-updated}
use wispbox.Db.Models.{Certificate}
use wispbox.Db.Tables.{Store, format_time}
use wispbox.Db.Certificates.{
  due_at, certificates_due_for_renewal, mark_certificate_issued, set_certificate,
  set_certificate_renew_after,
}

pub due-In :
    (now : ℕ) (s : Store) (c : Certificate)
    → In c (certificates_due_for_renewal now s)
    → In c s.certificates.rows × (due_at (format_time now) c ≡ true)
unfolding certificates_due_for_renewal
due-In now s c m =
    let due = select (due_at (format_time now)) s.certificates.rows in
    (In-select (due_at (format_time now)) s.certificates.rows c).0
      ((In-order_by (λ c. to_lower c.hostname) due c).0 m)

-- A certificate that has just been marked as issued is up for renewal no earlier than at the renewal time
-- that it was given, both times taken to the millisecond.
pub mark_certificate_issued-due :
    (now id : ℕ) (challenge_type cert_path key_path : Text)
    (not_before not_after renew_after later : ℕ) (s : Store) (c : Certificate)
    → In c (
        certificates_due_for_renewal later (
          mark_certificate_issued now id challenge_type cert_path key_path not_before not_after
            renew_after s))
    → c.id ≡ id
    → format_time renew_after ≤ format_time later
unfolding mark_certificate_issued set_certificate
mark_certificate_issued-due now id challenge_type cert_path key_path not_before not_after
      renew_after later s c m e =
    let (stored, due) =
      due-In later
        (mark_certificate_issued now id challenge_type cert_path key_path not_before not_after
          renew_after s)
        c m in
    let (q, mq, k) = In-update (λ c. c.id == id) _ s.certificates.rows c stored in
    elim (Bool-cases (q.id == id)) [
      | inr t ↦ let same : c ≡ q = rw t at k in ground (arith, ap (λ (x : Certificate). x.id) same)
      | inl t ↦
          let now_due = subst (λ x. due_at (format_time later) x ≡ true) (rw t at k) due in
          ground (arith, now_due)
    ]

-- The same for a renewal time that is set by itself.
pub set_certificate_renew_after-due :
    (now id at later : ℕ) (s : Store) (c : Certificate)
    → In c (certificates_due_for_renewal later (set_certificate_renew_after now id at s))
    → c.id ≡ id
    → format_time at ≤ format_time later
unfolding set_certificate_renew_after set_certificate
set_certificate_renew_after-due now id at later s c m e =
    let (stored, due) = due-In later (set_certificate_renew_after now id at s) c m in
    let (q, mq, k) = In-update (λ c. c.id == id) _ s.certificates.rows c stored in
    elim (Bool-cases (q.id == id)) [
      | inr t ↦ let same : c ≡ q = rw t at k in ground (arith, ap (λ (x : Certificate). x.id) same)
      | inl t ↦
          let now_due = subst (λ x. due_at (format_time later) x ≡ true) (rw t at k) due in
          ground (arith, now_due)
    ]

-- Once that time has come, the certificate is up for renewal.
pub set_certificate_renew_after-In :
    (now id at later : ℕ) (s : Store) (c : Certificate)
    → In c s.certificates.rows
    → c.id ≡ id
    → format_time at ≤ format_time later
    → (c' : Certificate) × In c'
        (certificates_due_for_renewal later (set_certificate_renew_after now id at s))
      × (c'.id ≡ id)
unfolding set_certificate_renew_after set_certificate certificates_due_for_renewal
set_certificate_renew_after-In now id at later s c m e l =
    let f : Certificate → Certificate =
      λ c. record c { renew_after = some (format_time at); updated_at = format_time now } in
    let rows = update (λ c. c.id == id) f s.certificates.rows in
    let stored : In (f c) rows =
      subst (λ x. In x rows) (ground arith)
        (In-updated (λ c. c.id == id) f s.certificates.rows c m) in
    (
      f c,
      (In-order_by (λ c. to_lower c.hostname) (select (due_at (format_time later)) rows) (f c)).1
          ((In-select (due_at (format_time later)) rows (f c)).1 (stored, ground arith)),
      e,
    )
