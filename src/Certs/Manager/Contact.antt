-- ===== src/Certs/Manager/Contact.antt =====
-- When an attempt asks the certificate authority.
use wispbox.Base.{
  refl, ℕ, Text, Bool, true, false, ok, ◌≡◌, In, inl, inr, ◌⊎◌, ◌∷◌, ◌++◌, [], In-append_split,
}
use wispbox.Base.Outcome.{Result-cases}
use wispbox.Db.Models.{Certificate, CertStatus}
use wispbox.Db.Tables.{Store}
use wispbox.Db.Certificates.{get_certificate, update_certificate_status}
use wispbox.Certs.Manager.{
  Manager, Answers, Issued, Effect, IssuerKind, fail, issue_now, issue_cert, install, preflight_of,
  after_issue, write_pem_pair, paths,
}

module _ (P : Type 0) (join : Text → Text → Text) (cert_dir : Text) where
  not_after_issue :
      (wired : Bool) (h : Text) → ¬ In (Effect.ca_contacted h) (after_issue P join cert_dir wired)
  not_after_issue true h m = elim m [ inl e ↦ cc e | inr r ↦ r ]
  not_after_issue false h m = elim m [ inl e ↦ cc e | inr r ↦ elim r [ inl e ↦ cc e | inr z ↦ z ] ]

  module _ (kind : IssuerKind) (wired : Bool) (format_date : ℕ → Text) where
    install-contacts :
        (now : ℕ) (answers : Answers) (cert : Certificate) (issued : Issued) (m : Manager P)
        (s : Store) (h : Text)
        → In
            (Effect.ca_contacted h)
            (install P join cert_dir kind wired format_date now answers cert issued m s).0.0.effects
        → In (Effect.ca_contacted h) m.effects
    unfolding install fail
    install-contacts now answers cert issued m s h k =
        let (cert_path, key_path) = paths P join cert_dir cert.hostname in
        let w = write_pem_pair answers cert_path key_path issued.cert_pem issued.key_pem m.files in
        elim (Result-cases w.1) [
          | inr (e, q) ↦ rw (install, q, fail) at k
          | inl (u, q) ↦
              elim (In-append_split _ m.effects (after_issue P join cert_dir wired)
                (rw (install, q) at k)) [ inl l ↦ l | inr r ↦ absurd (not_after_issue wired h r) ]
        ]

    preflight-passed :
        (answers : Answers)
        → preflight_of P join cert_dir kind wired format_date answers ≡ ok tt
        → (kind ≡ IssuerKind.self_signed) ⊎ (answers.preflight ≡ ok tt)
    unfolding preflight_of
    preflight-passed answers p = go kind p
      where
        go :
            (k : IssuerKind)
            → preflight_of P join cert_dir k wired format_date answers ≡ ok tt
            → (k ≡ IssuerKind.self_signed) ⊎ (answers.preflight ≡ ok tt)
        go IssuerKind.http_01 q = inr q
        go IssuerKind.self_signed q = inl refl

    -- An attempt asks the certificate authority for no other hostname than that of the certificate, and only
    -- once the DNS check of this attempt has passed, unless the issuer signs for itself.
    pub issue_now-contacts :
        (now : ℕ) (answers : Answers) (id : ℕ) (m : Manager P) (s : Store) (c : Certificate)
        (h : Text)
        → get_certificate id s ≡ ok c
        → In
            (Effect.ca_contacted h)
            (issue_now P join cert_dir kind wired format_date now answers id m s).0.0.effects
        → In (Effect.ca_contacted h) m.effects
          ⊎ (((kind ≡ IssuerKind.self_signed) ⊎ (answers.preflight ≡ ok tt)) × (h ≡ c.hostname))
    unfolding issue_now issue_cert fail
    issue_now-contacts now answers id m s c h q k =
        let s' = update_certificate_status now c.id CertStatus.issuing [] s in
        let m' : Manager P = record m {
          effects = m.effects ++ Effect.ca_contacted c.hostname ∷ [];
        } in
        elim (Result-cases (preflight_of P join cert_dir kind wired format_date answers)) [
          | inr (e, p) ↦ inl (rw (issue_now, q, issue_cert, p, fail) at k)
          | inl (u, p) ↦
              let asked : In (Effect.ca_contacted h) m'.effects =
                elim (Result-cases answers.issue) [
                  | inr (e, i) ↦ rw (issue_now, q, issue_cert, p, i, fail) at k
                  | inl (issued, i) ↦
                      install-contacts now answers c issued m' s' h
                        (rw (issue_now, q, issue_cert, p, i) at k)
                ] in
              elim (In-append_split _ m.effects _ asked) [
                | inl l ↦ inl l
                | inr r ↦ elim r [
                  | inl e ↦ inr (preflight-passed answers p, cc e)
                  | inr z ↦ absurd z
                ]
              ]
        ]
