-- ===== src/MailApi/Tests.antt =====
-- One mailbox with one alias.
use wispbox.MailApi.Ids.{
  decode_message_id, encode_message_id, decode_attachment_id, encode_attachment_id,
}
use wispbox.MailApi.Ids.RoundTrip.{decode-encode_ids}
use wispbox.Auth.Sessions.{Cookie, csrf_token}
use wispbox.Db.Sessions.{create_session}
use wispbox.Security.RateLimit.{login_limiter, allow}
use wispbox.MailApi.Access.{Server, LoginRequest, login_mail}
use wispbox.MailApi.Access.SignedIn.{Proven, Started, login_mail-Proven}
use wispbox.Base.{
  ◌++◌, ◌∷◌, Bool, Text, codes, true, false, [], Option, some, ok, ◌≡◌, ◌↔◌, refl, In, inl, pos,
  any_byte, arith,
}
use wispbox.Base.{same, lower, to_lower, trim_left, trim_right, trim_space, contains, has_prefix}
use wispbox.Base.Rows.{exists}
use wispbox.Db.Validate.{
  validate_local_part, local_part_re, validate_domain_name, domain_re, labels_re, validate_hostname,
  default_mail_hostname,
}
use wispbox.Db.Models.{Mailbox}
use wispbox.Db.Tables.{Store, fresh, nocase}
use wispbox.Db.Domains.{create_domain, insert_domain, get_domain}
use wispbox.Db.Mailboxes.{create_mailbox, insert_mailbox}
use wispbox.Db.Addresses.Reached.{Reach, here, next, add_domain, add_mailbox}
use wispbox.Configgen.SenderLogins.{sender_logins}
use wispbox.Configgen.SenderLogins.Grants.{Grants}
use wispbox.MailApi.Senders.{allowed_senders, resolve_from}
use wispbox.MailApi.Senders.SameAsPostfix.{
  allowed_senders-sender_logins, resolve_from-Grants, Grants-resolve_from,
}

-- A stand-in for mail.ParseAddress.
abbrev parse_address : Text → Option Text
parse_address t = some t

abbrev one_domain : Store
one_domain = (create_domain 0 (codes "a.io") [] (fresh 0)).0

abbrev one_mailbox : Store
one_mailbox = (create_mailbox 0 1 (codes "Eve") [] (pos 0) one_domain).0

run : Reach parse_address (fresh 0) one_mailbox
run = next (next here (add_domain 0 (codes "a.io") [])) (add_mailbox 0 1 (codes "Eve") [] (pos 0))

abbrev pub eve : Mailbox
eve = record {
  id = 1;
  domain_id = 1;
  local_part = codes "eve";
  email = codes "eve@a.io";
  password_hash = [];
  webauthn_handle = [];
  two_factor_enabled = false;
  encrypted_totp_secret = [];
  encrypted_passkey_password = [];
  quota_mb = pos 0;
  enabled = true;
  created_at = 0;
  updated_at = 0;
}

eve_stored : In eve one_mailbox.mailboxes.rows
unfolding create_mailbox create_domain insert_mailbox insert_domain get_domain validate_local_part
    local_part_re validate_domain_name domain_re labels_re validate_hostname default_mail_hostname
    to_lower trim_space trim_left trim_right lower same contains has_prefix exists nocase
eve_stored = inl refl

allowed_senders-sender_logins_example :
    In eve.email (allowed_senders eve one_mailbox)
    ↔ Grants eve.email eve.email (sender_logins one_mailbox)
allowed_senders-sender_logins_example =
    allowed_senders-sender_logins parse_address 0 {s = one_mailbox} run eve eve_stored refl
      eve.email

resolve_from-Grants_example : Grants eve.email eve.email (sender_logins one_mailbox)
unfolding resolve_from same to_lower trim_space
resolve_from-Grants_example =
    resolve_from-Grants parse_address 0 {s = one_mailbox} run eve eve_stored refl [] eve.email refl

Grants-resolve_from_example : resolve_from eve eve.email one_mailbox ≡ ok eve.email
unfolding to_lower trim_space
Grants-resolve_from_example =
    Grants-resolve_from parse_address 0 {s = one_mailbox} run eve eve_stored refl eve.email
      (λ e. cc) refl resolve_from-Grants_example

decode-encode_ids_example :
    (decode_message_id some (encode_message_id (λ t. t) (codes "INBOX") 7)
      ≡ some (codes "INBOX", 7))
    × (decode_attachment_id some (encode_attachment_id (λ t. t) (codes "INBOX") 7 2)
        ≡ some (codes "INBOX", 7, pos 2))
unfolding any_byte
decode-encode_ids_example =
    decode-encode_ids (λ t. t) some (λ t. refl) (codes "INBOX") 7 2 refl (omega arith) (omega arith)

abbrev hash : Text → Text
hash t = b'h' ∷ t

abbrev mac : Text → Text
mac t = b'm' ∷ t

-- A password fits the hash that spells it; no code does.
abbrev no_code : Text → Text → Bool
no_code secret code = false

abbrev door : Server
door = record {
  limiter = login_limiter;
  sessions = record {
    store = record (fresh 0) { mailboxes = record { rows = eve ∷ []; next = 2 } };
    secure = true;
    creds = [];
  };
}

abbrev knock : LoginRequest
knock = record { email = codes "Eve@a.io"; password = []; totp_code = [] }

abbrev cookie : Cookie
cookie = record {
  name = codes "wispbox_mail";
  value = codes "t";
  max_age = pos 604800;
  secure = true;
}

login_mail-Proven_example :
    ((allow 0 (codes "mail:" ++ codes "ip") login_limiter).1 ≡ true)
    × (m : Mailbox) × Proven hash mac same no_code some knock door.sessions.store m
    × Started hash mac same no_code some 0
        (codes "t")
        (codes "ip")
        knock
        m
        door.sessions
        (login_mail hash mac same no_code some 0 (codes "t") (codes "ip") knock door).0.sessions
unfolding login_mail create_session csrf_token
login_mail-Proven_example =
    login_mail-Proven hash mac same no_code some 0 (codes "t") (codes "ip") knock door
      (codes "eve@a.io") (mac (codes "csrf:ht")) cookie refl
