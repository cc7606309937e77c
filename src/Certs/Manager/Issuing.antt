-- ===== src/Certs/Manager/Issuing.antt =====
-- What an attempt to issue a certificate leaves when it fails.
use wispbox.Base.{ℕ, Text, Bool, List, ok, err, ◌≡◌, refl, ◌⊎◌, inl, inr, ap, ◌∙◌, ◌++◌, ◌∷◌, []}
use wispbox.Base.Outcome.{Result-cases}
use wispbox.Base.Assoc.{put, remove}
use wispbox.Db.Models.{Certificate, CertStatus}
use wispbox.Db.Tables.{Store}
use wispbox.Db.Certificates.{update_certificate_status}
use wispbox.Certs.Manager.{
  Manager, Answers, Issued, IssueError, IssuerKind, write_pem_pair, fail, install, issue_cert,
  preflight_of, paths, Effect,
}

-- What the attempt had done before it failed.
abbrev pub IsFailed :
    {P : Type 0} → ℕ → Answers → Certificate → Manager P → Store → Manager P → Store → Type 0
IsFailed now answers cert m s m' s' =
    (m'.failures ≡ m.failures)
    × (m'.cache ≡ m.cache)
    × (m'.fallback ≡ m.fallback)
    × (answers.write_key ≡ ok tt → m'.files ≡ m.files)
    × ((s' ≡ s) ⊎ (s' ≡ update_certificate_status now cert.id CertStatus.issuing [] s))

write_pem_pair-err :
    (answers : Answers) (cert_path key_path cert_pem key_pem : Text) (files : List (Text × Text))
    → answers.write_key ≡ ok tt
    → (e : Text) → (write_pem_pair answers cert_path key_path cert_pem key_pem files).1 ≡ err e
    → (write_pem_pair answers cert_path key_path cert_pem key_pem files).0 ≡ files
unfolding write_pem_pair
write_pem_pair-err answers cert_path key_path cert_pem key_pem files h e q =
    elim (Result-cases answers.make_dir) [
      | inr (d, a) ↦ rw a refl
      | inl (d, a) ↦ elim (Result-cases answers.write_cert) [
        | inr (d', b) ↦ rw (a, b) refl
        | inl (d', b) ↦ cc (rw (a, b, h) at q)
      ]
    ]

write_pem_pair-ok :
    (answers : Answers) (cert_path key_path cert_pem key_pem : Text) (files : List (Text × Text))
    (u : Unit {0})
    → (write_pem_pair answers cert_path key_path cert_pem key_pem files).1 ≡ ok u
    → (write_pem_pair answers cert_path key_path cert_pem key_pem files).0
      ≡ put key_path key_pem (put cert_path cert_pem files)
unfolding write_pem_pair
write_pem_pair-ok answers cert_path key_path cert_pem key_pem files u q =
    elim (Result-cases answers.make_dir) [
      | inr (d, a) ↦ cc (rw a at q)
      | inl (d, a) ↦ elim (Result-cases answers.write_cert) [
        | inr (d', b) ↦ cc (rw (a, b) at q)
        | inl (d', b) ↦ elim (Result-cases answers.write_key) [
          | inr (d', g) ↦ cc (rw (a, b, g) at q)
          | inl (d', g) ↦ rw (a, b, g) refl
        ]
      ]
    ]

module _ (P : Type 0) (join : Text → Text → Text) (cert_dir : Text) where
  failed :
      (now : ℕ) (answers : Answers) (cert : Certificate) (status : CertStatus) (e why : Text)
      (m m' : Manager P) (s s' : Store)
      → (fail P join cert_dir now cert status e m' s').1 ≡ err (IssueError.cause why)
      → IsFailed now answers cert m s m' s'
      → (status' : CertStatus) × (m'' : Manager P) × (s'' : Store) × (fail P join cert_dir now cert
            status e m' s'
          ≡ fail P join cert_dir now cert status' why m'' s'')
        × IsFailed now answers cert m s m'' s''
  unfolding fail
  failed now answers cert status e why m m' s s' h k =
      let q : e ≡ why = cc h in
      (status, m', s', ap (λ x. fail P join cert_dir now cert status x m' s') q, k)

  module _ (kind : IssuerKind) (wired : Bool) (format_date : ℕ → Text) where
    install-err :
        (now : ℕ) (answers : Answers) (cert : Certificate) (issued : Issued) (m m' : Manager P)
        (s s' : Store) (why : Text)
        → (install P join cert_dir kind wired format_date now answers cert issued m' s').1
          ≡ err (IssueError.cause why)
        → IsFailed now answers cert m s m' s'
        → (status' : CertStatus) × (m'' : Manager P) × (s'' : Store) × (install P join cert_dir kind
              wired format_date now answers cert issued m' s'
            ≡ fail P join cert_dir now cert status' why m'' s'')
          × IsFailed now answers cert m s m'' s''
    unfolding install
    install-err now answers cert issued m m' s s' why h (kf, kc, kb, kw, ks) =
        let (cert_path, key_path) = paths P join cert_dir cert.hostname in
        let w = write_pem_pair answers cert_path key_path issued.cert_pem issued.key_pem m'.files in
        let m'' : Manager P = record m' { files = w.0 } in
        elim (Result-cases w.1) [
          | inl (a, q) ↦ cc (rw (install, q) at h)
          | inr (e, q) ↦
              rw (install, q)
                (failed now answers cert CertStatus.error e why m m'' s s' (rw (install, q) at h) (
                  kf,
                  kc,
                  kb,
                  λ g.
                      write_pem_pair-err answers cert_path key_path issued.cert_pem issued.key_pem
                        m'.files g e q
                      ∙ kw g,
                  ks,
                ))
        ]

    pub issue_cert-err :
        (now : ℕ) (answers : Answers) (cert : Certificate) (m : Manager P) (s : Store) (why : Text)
        → (issue_cert P join cert_dir kind wired format_date now answers cert m s).1
          ≡ err (IssueError.cause why)
        → (status : CertStatus) × (m' : Manager P) × (s' : Store) × (issue_cert P join cert_dir kind
              wired format_date now answers cert m s
            ≡ fail P join cert_dir now cert status why m' s')
          × IsFailed now answers cert m s m' s'
    unfolding issue_cert
    issue_cert-err now answers cert m s why h =
        elim (Result-cases (preflight_of P join cert_dir kind wired format_date answers)) [
          | inr (e, q) ↦
              rw (issue_cert, q)
                (failed now answers cert CertStatus.dns_wait e why m m s s (rw (issue_cert, q) at h)
                  (refl, refl, refl, λ g. refl, inl refl))
          | inl (a, q) ↦
              let s' = update_certificate_status now cert.id CertStatus.issuing [] s in
              let m' : Manager P = record m {
                effects = m.effects ++ Effect.ca_contacted cert.hostname ∷ [];
              } in
              elim (Result-cases answers.issue) [
                | inr (e, r) ↦
                    rw (issue_cert, q, r)
                      (failed now answers cert CertStatus.error e why m m' s s'
                        (rw (issue_cert, q, r) at h) (refl, refl, refl, λ g. refl, inr refl))
                | inl (issued, r) ↦
                    rw (issue_cert, q, r)
                      (install-err now answers cert issued m m' s s' why
                        (rw (issue_cert, q, r) at h) (refl, refl, refl, λ g. refl, inr refl))
              ]
        ]

    install-ok :
        (now : ℕ) (answers : Answers) (cert : Certificate) (issued : Issued) (m : Manager P)
        (s : Store)
        → (install P join cert_dir kind wired format_date now answers cert issued m s).1 ≡ ok tt
        → let after =
            (install P join cert_dir kind wired format_date now answers cert issued m s).0.0 in
          (after.cache ≡ remove cert.hostname m.cache)
          × (after.files
              ≡ put
                  (paths P join cert_dir cert.hostname).1
                  issued.key_pem
                  (put (paths P join cert_dir cert.hostname).0 issued.cert_pem m.files))
    unfolding install
    install-ok now answers cert issued m s h =
        let (cert_path, key_path) = paths P join cert_dir cert.hostname in
        let w = write_pem_pair answers cert_path key_path issued.cert_pem issued.key_pem m.files in
        elim (Result-cases w.1) [
          | inr (e, q) ↦ cc (rw (install, q, fail) at h)
          | inl (u, q) ↦
              rw (install, q)
                (
                  refl,
                  write_pem_pair-ok answers cert_path key_path issued.cert_pem issued.key_pem
                      m.files u q,
                )
        ]

    pub issue_cert-ok :
        (now : ℕ) (answers : Answers) (cert : Certificate) (issued : Issued) (m : Manager P)
        (s : Store)
        → answers.issue ≡ ok issued
        → (issue_cert P join cert_dir kind wired format_date now answers cert m s).1 ≡ ok tt
        → let after =
            (issue_cert P join cert_dir kind wired format_date now answers cert m s).0.0 in
          (after.cache ≡ remove cert.hostname m.cache)
          × (after.files
              ≡ put
                  (paths P join cert_dir cert.hostname).1
                  issued.key_pem
                  (put (paths P join cert_dir cert.hostname).0 issued.cert_pem m.files))
    unfolding issue_cert
    issue_cert-ok now answers cert issued m s r h =
        elim (Result-cases (preflight_of P join cert_dir kind wired format_date answers)) [
          | inr (e, q) ↦ cc (rw (issue_cert, q, fail) at h)
          | inl (a, q) ↦
              let s' = update_certificate_status now cert.id CertStatus.issuing [] s in
              let m' : Manager P = record m {
                effects = m.effects ++ Effect.ca_contacted cert.hostname ∷ [];
              } in
              rw (issue_cert, q, r)
                (install-ok now answers cert issued m' s' (rw (issue_cert, q, r) at h))
        ]
