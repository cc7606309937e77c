-- ===== src/Certs/Manager.antt =====
-- internal/certs/manager.go: the certificate that a TLS handshake gets, and the attempts to issue or renew
-- one. `join` is filepath.Join, `x509_key_pair` reads a pair from the texts of its two files, `answers` is
-- what the DNS check, the certificate authority and the disk say during one attempt. An attempt is taken as
-- one step, at one time: two of them for a hostname exclude each other by its lock, but a handshake while
-- one is writing its files is left out. Times are nanoseconds, of lifetimes under 146 years, where Go's
-- int64 does not wrap.
mod Parts
pub mod Serving
pub mod Issuing
pub mod Walk
pub mod Retry
pub mod Contact
pub use Parts.{
  hour, renew_before, max_backoff, Effect, Manager, Issued, Answers, IssueError, IssuerKind,
  kind_name, cert_event, ca_contacted, config_regenerated, service_reloaded, stored, cause, http_01,
  self_signed,
}
unfoldable pub use Parts.{
  failures_of, backoff, renewal_time, human_cert_error, trim_dot, ensure_tracked, write_pem_pair,
}
use wispbox.Base.{
  ℕ, ◌+◌, Text, codes, Bool, List, [], ◌∷◌, ◌++◌, Option, none, some, Result, ok, err,
  if◌then◌else◌, same, to_lower,
}
use wispbox.Base.Assoc.{get, put, remove}
use wispbox.Db.Models.{Certificate, CertStatus}
use wispbox.Db.Tables.{Store}
use wispbox.Db.Settings.{append_service_event}
use wispbox.Db.Certificates.{
  get_certificate, update_certificate_status, mark_certificate_issued, set_certificate_renew_after,
  certificates_due_for_renewal,
}

module _ (P : Type 0) (join : Text → Text → Text) (cert_dir : Text) where
  unfoldable pub paths : Text → Text × Text
  unfolding to_lower
  paths hostname =
      let dir = join cert_dir (to_lower hostname) in
      (join dir (codes "fullchain.pem"), join dir (codes "privkey.pem"))

  module _ (x509_key_pair : Text → Text → Option P) where
    -- tls.LoadX509KeyPair
    unfoldable pub load_key_pair : Text → Text → List (Text × Text) → Option P
    unfolding get
    load_key_pair cert_path key_path files = elim (get cert_path files) [
      | none ↦ none
      | some cert ↦ elim (get key_path files) [ none ↦ none | some key ↦ x509_key_pair cert key ]
    ]

    -- The body of GetCertificate past its first line, on the parts of the manager that it reads, with the
    -- cache that it leaves.
    unfoldable pub certificate_for :
        Text → List (Text × P) → List (Text × Text) → Option P → List (Text × P) × Option P
    unfolding get put paths load_key_pair same
    certificate_for host cache files fallback = elim (get host cache) [
      | some pair ↦ (cache, some pair)
      | none ↦
          let (cert_path, key_path) = paths host in
          let loaded = load_key_pair cert_path key_path files in
          elim (if same host [] then none else loaded) [
            | none ↦ (cache, fallback)
            | some pair ↦ (put host pair cache, some pair)
          ]
    ]

    -- `none` is the error "no certificate available".
    unfoldable pub get_tls_certificate : Text → Manager P → Manager P × Option P
    unfolding certificate_for to_lower trim_dot
    get_tls_certificate server_name m =
        let host = to_lower (trim_dot server_name) in
        let (cache, answer) = certificate_for host m.cache m.files m.fallback in
        (record m { cache = cache }, answer)

  unfoldable pub fail :
      ℕ
      → Certificate
      → CertStatus
      → Text
      → Manager P
      → Store
      → (Manager P × Store) × Result IssueError (Unit {0})
  unfolding failures_of put backoff human_cert_error update_certificate_status
      set_certificate_renew_after append_service_event
  fail now cert status why m s =
      let n = failures_of cert.hostname m.failures + 1 in
      (
        (
          record m { failures = put cert.hostname n m.failures },
          append_service_event now
              (cert_event (codes "error") (cert.hostname ++ codes ": " ++ human_cert_error why))
              (set_certificate_renew_after now cert.id (now + backoff n)
                (update_certificate_status now cert.id status (human_cert_error why) s)),
        ),
        err (cause why),
      )

  -- OnIssued if it is wired, whose error is only logged, or else the two reloads.
  abbrev pub after_issue : Bool → List Effect
  after_issue wired =
      if wired
      then config_regenerated ∷ []
      else service_reloaded (codes "postfix") ∷ service_reloaded (codes "dovecot") ∷ []

  module _ (kind : IssuerKind) (wired : Bool) (format_date : ℕ → Text) where
    -- What follows a successful answer of the certificate authority.
    unfoldable pub install :
        ℕ
        → Answers
        → Certificate
        → Issued
        → Manager P
        → Store
        → (Manager P × Store) × Result IssueError (Unit {0})
    unfolding paths write_pem_pair fail renewal_time mark_certificate_issued remove
        append_service_event
    install now answers cert issued m s =
        let (cert_path, key_path) = paths cert.hostname in
        let (files, written) =
          write_pem_pair answers cert_path key_path issued.cert_pem issued.key_pem m.files in
        let m' : Manager P = record m { files = files } in
        elim written [
          | err why ↦ fail now cert CertStatus.error why m' s
          | ok _ ↦ (
            (
              record m' {
                failures = remove cert.hostname m.failures;
                cache = remove cert.hostname m.cache;
                effects = m.effects ++ after_issue wired;
              },
              append_service_event now
                  (cert_event (codes "ok") (
                    cert.hostname ++ codes " issued, valid until " ++ format_date issued.not_after))
                  (mark_certificate_issued now cert.id (kind_name kind) cert_path key_path
                    issued.not_before issued.not_after (renewal_time now issued) s),
            ),
            ok tt,
          )
        ]

    -- The preflight is asked for http-01 only.
    unfoldable pub preflight_of : Answers → Result Text (Unit {0})
    preflight_of answers = elim kind [ http_01 ↦ answers.preflight | self_signed ↦ ok tt ]

    unfoldable pub issue_cert :
        ℕ
        → Answers
        → Certificate
        → Manager P
        → Store
        → (Manager P × Store) × Result IssueError (Unit {0})
    unfolding preflight_of fail update_certificate_status install
    issue_cert now answers cert m s = elim (preflight_of answers) [
      | err why ↦ fail now cert CertStatus.dns_wait why m s
      | ok _ ↦
          let s' = update_certificate_status now cert.id CertStatus.issuing [] s in
          let m' : Manager P = record m {
            effects = m.effects ++ ca_contacted cert.hostname ∷ [];
          } in
          elim answers.issue [
            | err why ↦ fail now cert CertStatus.error why m' s'
            | ok issued ↦ install now answers cert issued m' s'
          ]
    ]

    unfoldable pub issue_now :
        ℕ → Answers → ℕ → Manager P → Store → (Manager P × Store) × Result IssueError (Unit {0})
    unfolding get_certificate issue_cert
    issue_now now answers cert_id m s = elim (get_certificate cert_id s) [
      | err e ↦ ((m, s), err (stored e))
      | ok cert ↦ issue_cert now answers cert m s
    ]

    -- An attempt for each certificate that was due when the walk began, whose errors are only logged.
    unfoldable pub renew_all :
        ℕ → (ℕ → Answers) → List Certificate → Manager P → Store → Manager P × Store
    unfolding issue_now
    renew_all now answers [] m s = (m, s)
    renew_all now answers (c ∷ cs) m s =
        let after = (issue_now now (answers c.id) c.id m s).0 in
        renew_all now answers cs after.0 after.1

    unfoldable pub renew_due : ℕ → (ℕ → Answers) → Manager P → Store → Manager P × Store
    unfolding certificates_due_for_renewal renew_all
    renew_due now answers m s = renew_all now answers (certificates_due_for_renewal now s) m s
