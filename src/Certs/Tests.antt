-- ===== src/Certs/Tests.antt =====
-- Closed runs of the certificate manager.
use wispbox.Base.{
  ℕ, Text, codes, true, false, [], ◌∷◌, ◌++◌, some, none, Option, ok, err, ◌≡◌, refl, arith, same,
  In, inl, inr, ◌⊎◌, ◌*◌, to_lower,
}
use wispbox.Db.Models.{Certificate, CertStatus}
use wispbox.Db.Tables.{Store, fresh}
use wispbox.Db.Certificates.{create_certificate, certificates_due_for_renewal, get_certificate}
use wispbox.Certs.Manager.{
  Manager, Answers, Issued, IssuerKind, Effect, issue_now, get_tls_certificate, hour, trim_dot,
  renew_due,
}
use wispbox.Certs.Manager.Serving.{issue_now-keeps_serving, issue_now-serves}
use wispbox.Certs.Manager.Walk.{Asked}
use wispbox.Certs.Manager.Retry.{issue_now-retried}
use wispbox.Certs.Manager.Contact.{issue_now-contacts}

abbrev slash : Text → Text → Text
slash dir name = dir ++ codes "/" ++ name

slash_apart :
    (dir : Text)
    → same (slash dir (codes "privkey.pem")) (slash dir (codes "fullchain.pem")) ≡ false
unfolding same
slash_apart [] = refl
slash_apart (c ∷ dir) = ground (arith, slash_apart dir)

abbrev pair_of : Text → Text → Option Text
pair_of cert key = some (cert ++ key)

abbrev host : Text
host = codes "m.x.y"

abbrev tracked : Store
tracked = (create_certificate 0 0 (codes "M.x.y") (fresh 0)).0

abbrev idle : Manager Text
idle = record {
  cache = (host, codes "old") ∷ [];
  failures = [];
  fallback = none;
  files = [];
  effects = [];
}

abbrev day_cert : Issued
day_cert = record {
  cert_pem = codes "C";
  key_pem = codes "K";
  not_before = 0;
  not_after = 24 * hour;
}

abbrev good : Answers
good = record {
  preflight = ok tt;
  issue = ok day_cert;
  make_dir = ok tt;
  write_cert = ok tt;
  write_key = ok tt;
}

abbrev away : Answers
away = record good { preflight = err (codes "does not resolve") }

abbrev day : ℕ → Text
day t = codes "1970-01-01"

abbrev row : Certificate
row = record {
  id = 1;
  domain_id = 0;
  hostname = host;
  status = CertStatus.pending;
  challenge_type = codes "http-01";
  cert_path = [];
  key_path = [];
  not_before = none;
  not_after = none;
  last_renewed_at = none;
  renew_after = none;
  last_error = [];
  created_at = 0;
  updated_at = 0;
}

issue_now-keeps_serving_example :
    (get_tls_certificate Text slash
      (codes "/c")
      pair_of
      host
      (issue_now Text slash (codes "/c") IssuerKind.http_01 true day 5 away 1 idle tracked).0.0).1
    ≡ (get_tls_certificate Text slash (codes "/c") pair_of host idle).1
unfolding issue_now create_certificate
issue_now-keeps_serving_example =
    issue_now-keeps_serving Text slash (codes "/c") IssuerKind.http_01 true day pair_of 5 away 1
      idle tracked (codes "does not resolve") host refl (inl refl)

issue_now-serves_example :
    (get_tls_certificate Text slash
      (codes "/c")
      pair_of
      host
      (issue_now Text slash (codes "/c") IssuerKind.http_01 true day 5 good 1 idle tracked).0.0).1
    ≡ some (codes "CK")
unfolding issue_now create_certificate get_certificate trim_dot to_lower
issue_now-serves_example =
    issue_now-serves Text slash (codes "/c") IssuerKind.http_01 true day pair_of slash_apart 5 good
      1 idle tracked row day_cert (codes "CK") refl refl refl refl refl refl

issue_now-retried_example :
    let after =
      (issue_now Text slash (codes "/c") IssuerKind.http_01 true day 5 away 1 idle tracked).0 in
    Asked Text after.0
      (renew_due Text slash
        (codes "/c")
        IssuerKind.http_01
        true
        day
        (25 * hour)
        (λ _. good)
        after.0
        after.1).0
      host
    × ¬ ((d : Certificate) × In d (certificates_due_for_renewal 7 after.1) × (d.id ≡ 1))
unfolding issue_now create_certificate get_certificate
issue_now-retried_example =
    issue_now-retried Text slash (codes "/c") IssuerKind.http_01 true day 5 7 (25 * hour) 1 away
      (λ _. good) idle tracked (codes "does not resolve") row refl refl (omega arith) (omega arith)
      (inr refl)

issue_now-contacts_example :
    In (Effect.ca_contacted host) idle.effects
    ⊎ (((IssuerKind.http_01 ≡ IssuerKind.self_signed) ⊎ (good.preflight ≡ ok tt)) × (host ≡ host))
unfolding issue_now create_certificate get_certificate
issue_now-contacts_example =
    issue_now-contacts Text slash (codes "/c") IssuerKind.http_01 true day 5 good 1 idle tracked row
      host refl (inl refl)
