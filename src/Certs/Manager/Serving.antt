-- ===== src/Certs/Manager/Serving.antt =====
-- The certificate that is served after an attempt.
use wispbox.Base.{
  subst, sym, ℕ, Text, codes, Bool, List, Option, none, some, ok, err, ◌≡◌, refl, same, to_lower,
  false, inl, inr, [], ◌⊎◌,
}
use wispbox.Base.Assoc.{get, put, get-put, get-put_other, get-remove}
use wispbox.Base.Outcome.{Result-cases}
use wispbox.Db.Models.{Certificate}
use wispbox.Db.Tables.{Store}
use wispbox.Db.Certificates.{get_certificate}
use wispbox.Certs.Manager.{
  Manager, Answers, Issued, IssueError, IssuerKind, fail, issue_now, get_tls_certificate,
  load_key_pair, trim_dot, paths, certificate_for,
}
use wispbox.Certs.Manager.Issuing.{issue_cert-err, issue_cert-ok}

module _ (P : Type 0) (join : Text → Text → Text) (cert_dir : Text) where
  module _ (x509_key_pair : Text → Text → Option P) where
    -- What is served is read off the cache, the files and the fallback.
    same_served :
        (m m' : Manager P) (name : Text)
        → m'.cache ≡ m.cache
        → m'.files ≡ m.files
        → m'.fallback ≡ m.fallback
        → (get_tls_certificate P join cert_dir x509_key_pair name m').1
          ≡ (get_tls_certificate P join cert_dir x509_key_pair name m).1
    unfolding get_tls_certificate
    same_served m m' name c f b = rw (c, f, b) refl

    -- What is in the cache is served, whatever the files say.
    same_cached :
        (m m' : Manager P) (name : Text) (pair : P)
        → m'.cache ≡ m.cache
        → get (to_lower (trim_dot name)) m.cache ≡ some pair
        → (get_tls_certificate P join cert_dir x509_key_pair name m').1
          ≡ (get_tls_certificate P join cert_dir x509_key_pair name m).1
    unfolding get_tls_certificate certificate_for
    same_cached m m' name pair c h = rw (get_tls_certificate, certificate_for, c, h) refl

    -- A pair of files that is loaded is served.
    served_from_files :
        (m : Manager P) (host : Text) (pair : P)
        → to_lower (trim_dot host) ≡ host
        → same host [] ≡ false
        → get host m.cache ≡ none
        → load_key_pair P join cert_dir x509_key_pair
            (paths P join cert_dir host).0
            (paths P join cert_dir host).1
            m.files
          ≡ some pair
        → (get_tls_certificate P join cert_dir x509_key_pair host m).1 ≡ some pair
    unfolding get_tls_certificate
    served_from_files m host pair normal named c l =
        subst
          (λ h.
            (certificate_for P join cert_dir x509_key_pair h m.cache m.files m.fallback).1
            ≡ some pair)
          (sym normal) (rw (certificate_for, c, named, l) refl)

    load_written :
        (cert_path key_path cert_pem key_pem : Text) (files : List (Text × Text)) (pair : P)
        → same key_path cert_path ≡ false
        → x509_key_pair cert_pem key_pem ≡ some pair
        → load_key_pair P join cert_dir x509_key_pair cert_path key_path
            (put key_path key_pem (put cert_path cert_pem files))
          ≡ some pair
    unfolding load_key_pair
    load_written cert_path key_path cert_pem key_pem files pair h x =
        rw
          (
            load_key_pair,
            get-put_other key_path cert_path key_pem (put cert_path cert_pem files) h,
            get-put cert_path cert_pem files,
            get-put key_path key_pem (put cert_path cert_pem files),
          )
          x

  module _ (kind : IssuerKind) (wired : Bool) (format_date : ℕ → Text) where
    -- An attempt that fails leaves a handshake the certificate that it got before, if no step of the writing
    -- of the key file is what failed, or if the hostname that the handshake names is in the cache.
    pub issue_now-keeps_serving :
        (x509_key_pair : Text → Text → Option P) (now : ℕ) (answers : Answers) (id : ℕ)
        (m : Manager P) (s : Store) (why : Text) (name : Text)
        → (issue_now P join cert_dir kind wired format_date now answers id m s).1
          ≡ err (IssueError.cause why)
        → (answers.write_key ≡ ok tt)
          ⊎ ((pair : P) × (get (to_lower (trim_dot name)) m.cache ≡ some pair))
        → (get_tls_certificate P join cert_dir x509_key_pair name
            (issue_now P join cert_dir kind wired format_date now answers id m s).0.0).1
          ≡ (get_tls_certificate P join cert_dir x509_key_pair name m).1
    unfolding issue_now fail
    issue_now-keeps_serving x509_key_pair now answers id m s why name h w =
        elim (Result-cases (get_certificate id s)) [
          | inr (e, q) ↦ rw (issue_now, q) refl
          | inl (c, q) ↦
              let (status, m', s', f, (_, kc, kb, kw, _)) =
                issue_cert-err P join cert_dir kind wired format_date now answers c m s why
                  (rw (issue_now, q) at h) in
              rw (issue_now, q, f)
                (elim w [
                  | inl k ↦
                      same_served x509_key_pair m (fail P join cert_dir now c status why m' s').0.0
                        name kc (kw k) kb
                  | inr (pair, k) ↦
                      same_cached x509_key_pair m (fail P join cert_dir now c status why m' s').0.0
                        name pair kc k
                ])
        ]

    module _ (x509_key_pair : Text → Text → Option P)
        (join_apart : (dir : Text)
          → same (join dir (codes "privkey.pem")) (join dir (codes "fullchain.pem")) ≡ false) where
      -- Once a certificate has been issued, the next handshake that names its hostname, which is not empty and stands in lower case without a dot
      -- at its end, gets the new pair, read back from the files that were written.
      pub issue_now-serves :
          (now : ℕ) (answers : Answers) (id : ℕ) (m : Manager P) (s : Store) (c : Certificate)
          (issued : Issued) (pair : P)
          → get_certificate id s ≡ ok c
          → answers.issue ≡ ok issued
          → (issue_now P join cert_dir kind wired format_date now answers id m s).1 ≡ ok tt
          → x509_key_pair issued.cert_pem issued.key_pem ≡ some pair
          → to_lower (trim_dot c.hostname) ≡ c.hostname
          → same c.hostname [] ≡ false
          → (get_tls_certificate P join cert_dir x509_key_pair c.hostname
              (issue_now P join cert_dir kind wired format_date now answers id m s).0.0).1
            ≡ some pair
      unfolding issue_now paths
      issue_now-serves now answers id m s c issued pair q i h x normal named =
          let (kc, kf) =
            issue_cert-ok P join cert_dir kind wired format_date now answers c issued m s i
              (rw (issue_now, q) at h) in
          rw (issue_now, q)
            (served_from_files x509_key_pair _ c.hostname pair normal named
              (rw kc (get-remove c.hostname m.cache))
              (rw kf (
                load_written x509_key_pair _ _ issued.cert_pem issued.key_pem m.files pair
                  (join_apart (join cert_dir (to_lower c.hostname))) x)))
