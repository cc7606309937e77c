-- ===== src/Certs/Manager/Retry.antt =====
-- When a certificate that could not be issued is tried again.
use wispbox.Base.{
  ℕ, [], some, ◌==◌, ◌∙◌, ◌+◌, ◌^◌, min, ◌≤◌, ◌<◌, suc, zero, Text, Bool, ok, err, ◌≡◌, refl, arith,
  In, ◌-◌, sym, subst, inl, inr, ◌⊎◌,
}
use wispbox.Base.Outcome.{Result-cases}
use wispbox.Base.Rows.{find-In, find, In-updated, find-cases}
use wispbox.Db.Models.{Certificate, CertStatus}
use wispbox.Db.Tables.{Store, format_time}
use wispbox.Db.Certificates.{
  get_certificate, certificates_due_for_renewal, update_certificate_status, set_certificate,
  scan_certificate,
}
use wispbox.Db.Certificates.Due.{set_certificate_renew_after-due, set_certificate_renew_after-In}
use wispbox.Certs.Manager.{
  renew_due, preflight_of, Manager, Answers, IssueError, IssuerKind, human_cert_error, fail,
  issue_now, backoff, hour, max_backoff, failures_of,
}
use wispbox.Certs.Manager.Issuing.{issue_cert-err}
use wispbox.Certs.Manager.Walk.{Asked, IsTracked, issue_now-Onward, renew_all-Asked}
use native.Mathlib.Nat.{mul-le-mul_right}

pow_pos : (k : ℕ) → 1 ≤ 2 ^ k
pow_pos zero = omega arith
pow_pos (suc k) = omega (arith, pow_pos k)

-- The wait is an hour at least and a day at most.
pub backoff_bounds : (n : ℕ) → (hour ≤ backoff n) × (backoff n ≤ max_backoff)
unfolding backoff
backoff_bounds n =
    let long = mul-le-mul_right hour (pow_pos (min (n - 1) 5)) in (ground arith, ground arith)

update_certificate_status-In :
    (now id : ℕ) (status : CertStatus) (e : Text) (s : Store) (c : Certificate)
    → In c s.certificates.rows
    → c.id ≡ id
    → (c' : Certificate) × In c' (update_certificate_status now id status e s).certificates.rows
      × (c'.id ≡ id)
unfolding update_certificate_status set_certificate
update_certificate_status-In now id status e s c m q =
    (_, In-updated (λ c. c.id == id) _ s.certificates.rows c m, ground arith)

get_certificate-In :
    (id : ℕ) (s : Store) (c : Certificate)
    → get_certificate id s ≡ ok c
    → In c s.certificates.rows × (c.id ≡ id)
unfolding get_certificate scan_certificate
get_certificate-In id s c h = elim (find-cases (λ c. c.id == id) s.certificates.rows) [
  | inl q ↦ cc (rw (get_certificate, q) at h)
  | inr (x, q) ↦
      let same : x ≡ c = cc (rw (get_certificate, q) at h) in
      let (m, e) =
        find-In (λ c. c.id == id) s.certificates.rows
          (subst (λ y. find (λ c. c.id == id) s.certificates.rows ≡ some y) same q) in
      (m, ground arith)
]

module _ (P : Type 0) (join : Text → Text → Text) (cert_dir : Text) where
  fail-retried :
      (now later : ℕ) (cert : Certificate) (status : CertStatus) (why : Text) (m : Manager P)
      (s : Store) (c : Certificate)
      → In c s.certificates.rows
      → c.id ≡ cert.id
      → now + max_backoff ≤ later
      → (c' : Certificate) × In c'
          (certificates_due_for_renewal later (fail P join cert_dir now cert status why m s).0.1)
        × (c'.id ≡ cert.id)
  unfolding fail certificates_due_for_renewal
  fail-retried now later cert status why m s c k e l =
      let (c', k', e') =
        update_certificate_status-In now cert.id status (human_cert_error why) s c k e in
      let n = failures_of cert.hostname m.failures + 1 in
      let (_, most) = backoff_bounds n in
      set_certificate_renew_after-In now cert.id (now + backoff n) later
        (update_certificate_status now cert.id status (human_cert_error why) s) c' k' e'
        (omega (arith, most, l))

  fail-not_before :
      (now later : ℕ) (cert : Certificate) (status : CertStatus) (why : Text) (m : Manager P)
      (s : Store) (c : Certificate)
      → In c (certificates_due_for_renewal later (fail P join cert_dir now cert status why m s).0.1)
      → c.id ≡ cert.id
      → format_time (now + hour) ≤ format_time later
  unfolding fail certificates_due_for_renewal
  fail-not_before now later cert status why m s c k e =
      let n = failures_of cert.hostname m.failures + 1 in
      let (least, _) = backoff_bounds n in
      let due =
        set_certificate_renew_after-due now cert.id (now + backoff n) later
          (update_certificate_status now cert.id status (human_cert_error why) s) c k e in
      omega (arith, least, due)

  module _ (kind : IssuerKind) (wired : Bool) (format_date : ℕ → Text) where
    issue_now-due :
        (now soon late id : ℕ) (answers : Answers) (m : Manager P) (s : Store) (why : Text)
        → (issue_now P join cert_dir kind wired format_date now answers id m s).1
          ≡ err (IssueError.cause why)
        → format_time soon < format_time (now + hour)
        → now + max_backoff ≤ late
        → let after = (issue_now P join cert_dir kind wired format_date now answers id m s).0.1 in
          ((c : Certificate) × In c (certificates_due_for_renewal late after) × (c.id ≡ id))
          × ¬ ((c : Certificate) × In c (certificates_due_for_renewal soon after) × (c.id ≡ id))
    unfolding issue_now
    issue_now-due now soon late id answers m s why h g l =
        elim (Result-cases (get_certificate id s)) [
          | inr (e, q) ↦ cc (rw (issue_now, q) at h)
          | inl (c, q) ↦
              let (k, i) = get_certificate-In id s c q in
              let (status, m', s', f, (_, _, _, _, ks)) =
                issue_cert-err P join cert_dir kind wired format_date now answers c m s why
                  (rw (issue_now, q) at h) in
              let stored : (c' : Certificate) × In c' s'.certificates.rows × (c'.id ≡ c.id) =
                elim ks [
                  | inl z ↦ rw z (c, k, refl)
                  | inr z ↦
                      rw z (update_certificate_status-In now c.id CertStatus.issuing [] s c k refl)
                ] in
              let (c', k', i') = stored in
              rw (issue_now, q, f)
                (
                  (let (d, kd, id') = fail-retried now late c status why m' s' c' k' i' l in
                      (d, kd, id' ∙ i)),
                  λ (d, kd, id').
                      omega
                        (arith, g, fail-not_before now soon c status why m' s' d kd (id' ∙ sym i)),
                )
        ]

    preflight_of-ok :
        (answers : Answers)
        → (kind ≡ IssuerKind.self_signed) ⊎ (answers.preflight ≡ ok tt)
        → preflight_of P join cert_dir kind wired format_date answers ≡ ok tt
    unfolding preflight_of
    preflight_of-ok answers (inl e) = rw (preflight_of, e) refl
    preflight_of-ok answers (inr e) = go kind
      where
        go : (k : IssuerKind) → preflight_of P join cert_dir k wired format_date answers ≡ ok tt
        go IssuerKind.http_01 = e
        go IssuerKind.self_signed = refl

    -- After an attempt that failed, a walk of renewals that begins a day later or more, with nothing between,
    -- asks the certificate authority for the hostname, if the issuer signs for itself or the DNS check then
    -- passes. As long as an hour has not passed, the certificate is not up for renewal. Times are taken to
    -- the millisecond.
    pub issue_now-retried :
        (now soon late id : ℕ) (answers : Answers) (later : ℕ → Answers) (m : Manager P) (s : Store)
        (why : Text) (c : Certificate)
        → get_certificate id s ≡ ok c
        → (issue_now P join cert_dir kind wired format_date now answers id m s).1
          ≡ err (IssueError.cause why)
        → format_time soon < format_time (now + hour)
        → now + max_backoff ≤ late
        → (kind ≡ IssuerKind.self_signed) ⊎ ((later id).preflight ≡ ok tt)
        → let after = (issue_now P join cert_dir kind wired format_date now answers id m s).0 in
          Asked P after.0
            (renew_due P join cert_dir kind wired format_date late later after.0 after.1).0
            c.hostname
          × ¬ ((d : Certificate) × In d (certificates_due_for_renewal soon after.1) × (d.id ≡ id))
    unfolding renew_due
    issue_now-retried now soon late id answers later m s why c q h g l allowed =
        let after = (issue_now P join cert_dir kind wired format_date now answers id m s).0 in
        let ((d, k, e), early) = issue_now-due now soon late id answers m s why h g l in
        let (_, keeps) =
          issue_now-Onward P join cert_dir kind wired format_date now answers id m s in
        (
          renew_all-Asked P join cert_dir kind wired format_date late later
              (certificates_due_for_renewal late after.1) d c.hostname after.0 after.1 k
              (subst (λ i. IsTracked i c.hostname after.1) (sym e)
                (keeps id c.hostname (c, q, refl)))
              (subst (λ i. preflight_of P join cert_dir kind wired format_date (later i) ≡ ok tt)
                (sym e) (preflight_of-ok (later id) allowed)),
          early,
        )
