-- ===== src/Certs/Manager/Walk.antt =====
-- A walk over the certificates that are due: what every attempt of it leaves to the next.
use mathlib.Core.List.{append-nil, append_assoc}
use wispbox.Base.{
  ℕ, Text, Bool, List, [], ◌∷◌, ◌++◌, ok, ◌==◌, ◌≡◌, refl, ap, sym, subst, ◌∙◌, In, inl, inr,
  Bool-cases, In-append_left, In-append_right,
}
use wispbox.Base.Outcome.{Result-cases}
use wispbox.Base.Rows.{find-cases, find-update}
use wispbox.Db.Models.{Certificate, CertStatus}
use wispbox.Db.Tables.{Store}
use wispbox.Db.Settings.{append_service_event}
use wispbox.Db.Certificates.{
  get_certificate, set_certificate, scan_certificate, update_certificate_status,
  mark_certificate_issued, set_certificate_renew_after,
}
use wispbox.Certs.Manager.{
  human_cert_error, Manager, Answers, Issued, Effect, IssuerKind, fail, install, issue_cert,
  issue_now, renew_all, preflight_of, after_issue, write_pem_pair, paths,
}

-- The certificate of an id is in the database, under a hostname.
abbrev pub IsTracked : ℕ → Text → Store → Type 0
IsTracked id h s = (c : Certificate) × (get_certificate id s ≡ ok c) × (c.hostname ≡ h)

IsTracked-set_certificate :
    (id j : ℕ) (f : Certificate → Certificate)
    → ((c : Certificate) → ((f c).id ≡ c.id) × ((f c).hostname ≡ c.hostname))
    → (h : Text) (s : Store) → IsTracked id h s
    → IsTracked id h (set_certificate j f s)
unfolding get_certificate set_certificate scan_certificate
IsTracked-set_certificate id j f keeps h s (c, g, e) =
    let p : Certificate → Bool = λ x. x.id == id in
    let q : Certificate → Bool = λ x. x.id == j in
    elim (find-cases p s.certificates.rows) [
      | inl n ↦ cc (rw (get_certificate, n) at g)
      | inr (x, n) ↦
          let same_one : x ≡ c = cc (rw (get_certificate, n) at g) in
          let found =
            find-update p q f s.certificates.rows (λ y _. ap (λ i. i == id) (keeps y).0) in
          let named : x.hostname ≡ h = ap (λ (y : Certificate). y.hostname) same_one ∙ e in
          elim (Bool-cases (q x)) [
            | inl t ↦ (f x, rw (get_certificate, found, n, t) refl, (keeps x).1 ∙ named)
            | inr t ↦ (x, rw (get_certificate, found, n, t) refl, named)
          ]
    ]

module _ (P : Type 0) where
  -- Between two states effects are only added, and certificates stay in the database.
  abbrev pub Onward : Manager P → Store → Manager P → Store → Type 0
  Onward m s m' s' =
      ((new : List Effect) × (m'.effects ≡ m.effects ++ new))
      × ((id : ℕ) (h : Text) → IsTracked id h s → IsTracked id h s')

  -- Between two states the certificate authority has been asked for a hostname.
  abbrev pub Asked : Manager P → Manager P → Text → Type 0
  Asked m m' h =
      (new : List Effect) × (m'.effects ≡ m.effects ++ new) × In (Effect.ca_contacted h) new

  Onward-trans :
      (a b c : Manager P) (s t u : Store) → Onward a s b t → Onward b t c u → Onward a s c u
  Onward-trans a b c s t u ((x, p), k) ((y, q), l) =
      ((x ++ y, q ∙ ap (λ z. z ++ y) p ∙ append_assoc a.effects x y), λ id h d. l id h (k id h d))

  Asked-Onward :
      (a b c : Manager P) (t u : Store) (h : Text) → Asked a b h → Onward b t c u → Asked a c h
  Asked-Onward a b c t u h (x, p, m) ((y, q), _) =
      (x ++ y, q ∙ ap (λ z. z ++ y) p ∙ append_assoc a.effects x y, In-append_left _ x y m)

  Onward-Asked :
      (a b c : Manager P) (s t : Store) (h : Text) → Onward a s b t → Asked b c h → Asked a c h
  Onward-Asked a b c s t h ((x, p), _) (y, q, m) =
      (x ++ y, q ∙ ap (λ z. z ++ y) p ∙ append_assoc a.effects x y, In-append_right _ x y m)

  module _ (join : Text → Text → Text) (cert_dir : Text) where
    fail-Onward :
        (now : ℕ) (cert : Certificate) (status : CertStatus) (why : Text) (m : Manager P)
        (s : Store)
        → let after = (fail P join cert_dir now cert status why m s).0 in Onward m s after.0 after.1
    unfolding fail update_certificate_status set_certificate_renew_after append_service_event
        get_certificate
    fail-Onward now cert status why m s = (
      ([], sym (append-nil m.effects)),
      λ id h d.
          IsTracked-set_certificate id cert.id _ (λ c. (refl, refl)) h
            (update_certificate_status now cert.id status (human_cert_error why) s)
            (IsTracked-set_certificate id cert.id _ (λ c. (refl, refl)) h s d),
    )

    module _ (kind : IssuerKind) (wired : Bool) (format_date : ℕ → Text) where
      install-Onward :
          (now : ℕ) (answers : Answers) (cert : Certificate) (issued : Issued) (m : Manager P)
          (s : Store)
          → let after =
              (install P join cert_dir kind wired format_date now answers cert issued m s).0 in
            Onward m s after.0 after.1
      unfolding install mark_certificate_issued append_service_event get_certificate
      install-Onward now answers cert issued m s =
          let (cert_path, key_path) = paths P join cert_dir cert.hostname in
          let w =
            write_pem_pair answers cert_path key_path issued.cert_pem issued.key_pem m.files in
          elim (Result-cases w.1) [
            | inr (e, q) ↦
                rw (install, q)
                  (fail-Onward now cert CertStatus.error e (record m { files = w.0 }) s)
            | inl (u, q) ↦
                rw (install, q)
                  (
                    (after_issue P join cert_dir wired, refl),
                    λ id h d. IsTracked-set_certificate id cert.id _ (λ c. (refl, refl)) h s d,
                  )
          ]

      abbrev asking : Certificate → Manager P → Manager P
      asking cert m = record m { effects = m.effects ++ Effect.ca_contacted cert.hostname ∷ [] }

      asking-Onward :
          (now : ℕ) (cert : Certificate) (m : Manager P) (s : Store)
          → Onward m s
              (asking cert m)
              (update_certificate_status now cert.id CertStatus.issuing [] s)
      unfolding update_certificate_status
      asking-Onward now cert m s = (
        (Effect.ca_contacted cert.hostname ∷ [], refl),
        λ id h d. IsTracked-set_certificate id cert.id _ (λ c. (refl, refl)) h s d,
      )

      -- What follows the question to the certificate authority.
      answered-Onward :
          (now : ℕ) (answers : Answers) (cert : Certificate) (m : Manager P) (s : Store)
          → preflight_of P join cert_dir kind wired format_date answers ≡ ok tt
          → let after =
              (issue_cert P join cert_dir kind wired format_date now answers cert m s).0 in
            Onward
              (asking cert m)
              (update_certificate_status now cert.id CertStatus.issuing [] s)
              after.0
              after.1
      unfolding issue_cert
      answered-Onward now answers cert m s p =
          let s' = update_certificate_status now cert.id CertStatus.issuing [] s in
          elim (Result-cases answers.issue) [
            | inr (e, i) ↦
                rw (issue_cert, p, i) (fail-Onward now cert CertStatus.error e (asking cert m) s')
            | inl (issued, i) ↦
                rw (issue_cert, p, i) (install-Onward now answers cert issued (asking cert m) s')
          ]

      issue_cert-Onward :
          (now : ℕ) (answers : Answers) (cert : Certificate) (m : Manager P) (s : Store)
          → let after =
              (issue_cert P join cert_dir kind wired format_date now answers cert m s).0 in
            Onward m s after.0 after.1
      unfolding issue_cert
      issue_cert-Onward now answers cert m s =
          elim (Result-cases (preflight_of P join cert_dir kind wired format_date answers)) [
            | inr (e, p) ↦ rw (issue_cert, p) (fail-Onward now cert CertStatus.dns_wait e m s)
            | inl (u, p) ↦
                let end =
                  (issue_cert P join cert_dir kind wired format_date now answers cert m s).0 in
                Onward-trans m (asking cert m) end.0 s
                  (update_certificate_status now cert.id CertStatus.issuing [] s) end.1
                  (asking-Onward now cert m s) (answered-Onward now answers cert m s p)
          ]

      pub issue_now-Onward :
          (now : ℕ) (answers : Answers) (id : ℕ) (m : Manager P) (s : Store)
          → let after = (issue_now P join cert_dir kind wired format_date now answers id m s).0 in
            Onward m s after.0 after.1
      unfolding issue_now
      issue_now-Onward now answers id m s = elim (Result-cases (get_certificate id s)) [
        | inr (e, q) ↦ rw (issue_now, q) (([], sym (append-nil m.effects)), λ i h d. d)
        | inl (c, q) ↦ rw (issue_now, q) (issue_cert-Onward now answers c m s)
      ]

      issue_now-Asked :
          (now : ℕ) (answers : Answers) (id : ℕ) (h : Text) (m : Manager P) (s : Store)
          → IsTracked id h s
          → preflight_of P join cert_dir kind wired format_date answers ≡ ok tt
          → Asked m (issue_now P join cert_dir kind wired format_date now answers id m s).0.0 h
      unfolding issue_now
      issue_now-Asked now answers id h m s (c, q, e) p =
          let s' = update_certificate_status now c.id CertStatus.issuing [] s in
          let end = (issue_cert P join cert_dir kind wired format_date now answers c m s).0 in
          rw (issue_now, q)
            (Asked-Onward m (asking c m) end.0 s' end.1 h
              (Effect.ca_contacted c.hostname ∷ [], refl, inl (ap Effect.ca_contacted (sym e)))
              (answered-Onward now answers c m s p))

      renew_all-Onward :
          (now : ℕ) (answers : ℕ → Answers) (cs : List Certificate) (m : Manager P) (s : Store)
          → let after = renew_all P join cert_dir kind wired format_date now answers cs m s in
            Onward m s after.0 after.1
      unfolding renew_all
      renew_all-Onward now answers [] m s = (([], sym (append-nil m.effects)), λ i h d. d)
      renew_all-Onward now answers (c ∷ cs) m s =
          let after =
            (issue_now P join cert_dir kind wired format_date now (answers c.id) c.id m s).0 in
          let end =
            renew_all P join cert_dir kind wired format_date now answers cs after.0 after.1 in
          Onward-trans m after.0 end.0 s after.1 end.1
            (issue_now-Onward now (answers c.id) c.id m s)
            (renew_all-Onward now answers cs after.0 after.1)

      -- A walk asks for every certificate on its list that is in the database, where the DNS check allows.
      pub renew_all-Asked :
          (now : ℕ) (answers : ℕ → Answers) (cs : List Certificate) (c : Certificate) (h : Text)
          (m : Manager P) (s : Store)
          → In c cs
          → IsTracked c.id h s
          → preflight_of P join cert_dir kind wired format_date (answers c.id) ≡ ok tt
          → Asked m (renew_all P join cert_dir kind wired format_date now answers cs m s).0 h
      unfolding renew_all
      renew_all-Asked now answers [] c h m s i d p = absurd i
      renew_all-Asked now answers (x ∷ cs) c h m s (inl e) d p =
          let id_is : c.id ≡ x.id = ap (λ (y : Certificate). y.id) e in
          let after =
            (issue_now P join cert_dir kind wired format_date now (answers x.id) x.id m s).0 in
          let end =
            renew_all P join cert_dir kind wired format_date now answers cs after.0 after.1 in
          Asked-Onward m after.0 end.0 after.1 end.1 h
            (issue_now-Asked now (answers x.id) x.id h m s (subst (λ k. IsTracked k h s) id_is d) (
              subst (λ k. preflight_of P join cert_dir kind wired format_date (answers k) ≡ ok tt)
                id_is p))
            (renew_all-Onward now answers cs after.0 after.1)
      renew_all-Asked now answers (x ∷ cs) c h m s (inr i) d p =
          let after =
            (issue_now P join cert_dir kind wired format_date now (answers x.id) x.id m s).0 in
          let onward = issue_now-Onward now (answers x.id) x.id m s in
          let end =
            renew_all P join cert_dir kind wired format_date now answers cs after.0 after.1 in
          Onward-Asked m after.0 end.0 s after.1 h onward
            (renew_all-Asked now answers cs c h after.0 after.1 i (onward.1 c.id h d) p)
