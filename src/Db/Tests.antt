-- ===== src/Db/Tests.antt =====
-- One domain.
use wispbox.Base.Rows.{exists, update, select, order_by}
use wispbox.Db.Models.{Certificate, CertStatus}
use wispbox.Db.Certificates.{
  create_certificate, mark_certificate_issued, certificates_due_for_renewal,
}
use wispbox.Db.Certificates.Due.{mark_certificate_issued-due}
use wispbox.Base.{
  inl, ◌≤◌, false, ok, ◌≡◌, refl, cut, to_lower, trim_space, trim_left, trim_right, lower, same,
  contains, has_prefix, Text, codes, [], Option, some,
}
use wispbox.Db.Tables.{format_time, fresh, Store}
use wispbox.Db.Domains.{create_domain}
use wispbox.Db.Aliases.{alias_source, split_source}
use wispbox.Db.Validate.{validate_local_part, local_part_re, bounded_word}
use wispbox.Db.Addresses.{IsAddressed}
use wispbox.Db.Addresses.Reached.{here, next, add_domain, Reach-IsAddressed}

-- A stand-in for mail.ParseAddress.
abbrev parse_address : Text → Option Text
parse_address t = some t

Reach-IsAddressed_example : IsAddressed (create_domain 0 (codes "a.io") [] (fresh 0)).0
Reach-IsAddressed_example =
    Reach-IsAddressed parse_address 0 {s = (create_domain 0 (codes "a.io") [] (fresh 0)).0}
      (next here (add_domain 0 (codes "a.io") []))

-- White space before the `@` of a source is stored as it stands.
untrimmed_alias_source :
    alias_source (codes "sales @a.io") (codes "a.io") false ≡ ok (codes "sales @a.io")
unfolding alias_source split_source cut validate_local_part local_part_re to_lower trim_space
    trim_left trim_right lower same contains has_prefix bounded_word
untrimmed_alias_source = refl

abbrev one_certificate : Store
one_certificate = (create_certificate 0 0 (codes "mail.a.io") (fresh 0)).0

abbrev issued : Store
issued = mark_certificate_issued 1 1 (codes "http-01") [] [] 0 9000000 5000000 one_certificate

abbrev certificate : Certificate
certificate = record {
  id = 1;
  domain_id = 0;
  hostname = codes "mail.a.io";
  status = CertStatus.active;
  challenge_type = codes "http-01";
  cert_path = [];
  key_path = [];
  not_before = some 0;
  not_after = some 9;
  last_renewed_at = some 0;
  renew_after = some 5;
  last_error = [];
  created_at = 0;
  updated_at = 0;
}

mark_certificate_issued-due_example : format_time 5000000 ≤ format_time 6000000
unfolding create_certificate mark_certificate_issued certificates_due_for_renewal to_lower lower
    exists update select order_by
mark_certificate_issued-due_example =
    mark_certificate_issued-due 1 1 (codes "http-01") [] [] 0 9000000 5000000 6000000
      one_certificate certificate (inl refl) refl
