-- ===== src/Configgen/Routing.antt =====
-- internal/configgen/data.go: the parts of Build that choose certificates, transports and keys. `decrypt` is
-- security.Decrypt with the secret, `file_exists` asks the disk, `join` is filepath.Join of three parts.
pub mod Lines
pub mod Credentials
pub mod Logins
use wispbox.Base.{
  suc, Text, codes, Bool, true, false, not, ◌&&◌, ◌||◌, List, [], ◌∷◌, ◌++◌, map, Option, none,
  some, Result, ok, err, if◌then◌else◌, same, contains, ℤ, pos, negsuc, length, ltb,
}
use wispbox.Base.Rows.{select}
use wispbox.Base.Assoc.{get, put}
use wispbox.Base.Decimals.{itoa}
use wispbox.Db.Errors.{Error}
use wispbox.Db.Models.{
  OutboundRelay, Domain, Mailbox, Certificate, CertStatus, DeliveryMode, direct, TlsMode, starttls,
  tls,
}
use wispbox.Db.Tables.{Store}
use wispbox.Db.Certificates.{list_certificates}
use wispbox.Db.Domains.{list_domains}
use wispbox.Delivery.Engine.{
  Resolved, Source, from_domain, from_global, resolve_global, resolve_for_domain,
}

pub record SniEntry : Type 0 where
  pub hostname : Text
  pub cert_path : Text
  pub key_path : Text

pub record SenderTransport : Type 0 where
  pub sender_key : Text
  pub transport : Text

pub record SaslEntry : Type 0 where
  pub nexthop : Text
  pub credentials : Text

pub record TlsPolicy : Type 0 where
  pub nexthop : Text
  pub policy : Text

pub record DkimKey : Type 0 where
  pub domain : Text
  pub selector : Text
  pub key_path : Text

-- `no_relay` stands for the panic at a nil relay, which a mode that is not known would lead to.
pub data RouteError : Type 0 where
  unresolved : Error → RouteError
  undecryptable conflicting : Text → RouteError
  no_relay : RouteError

-- What buildRouting fills in, with its map of the nexthops seen.
pub record Routing : Type 0 where
  pub seen_nexthop : List (Text × Text)
  pub sasl_entries : List SaslEntry
  pub tls_policies : List TlsPolicy
  pub default_transport : Text
  pub sender_transports : List SenderTransport

abbrev pub no_routing : Routing
no_routing = record {
  seen_nexthop = [];
  sasl_entries = [];
  tls_policies = [];
  default_transport = [];
  sender_transports = [];
}

-- %d
unfoldable pub decimal : ℤ → Text
unfolding itoa
decimal (pos n) = itoa n
decimal (negsuc n) = codes "-" ++ itoa (suc n)

unfoldable pub nexthop_of : OutboundRelay → Text
unfolding decimal
nexthop_of r = codes "[" ++ r.host ++ codes "]:" ++ decimal r.port

abbrev pub is_tls : TlsMode → Bool
is_tls tls = true
is_tls _ = false

abbrev pub is_starttls : TlsMode → Bool
is_starttls starttls = true
is_starttls _ = false

abbrev pub is_direct : DeliveryMode → Bool
is_direct direct = true
is_direct _ = false

abbrev pub is_active : CertStatus → Bool
is_active CertStatus.active = true
is_active _ = false

abbrev pub is_own : Source → Bool
is_own from_domain = true
is_own from_global = false

unfoldable pub transport_of : OutboundRelay → Text
unfolding nexthop_of
transport_of r = (if is_tls r.tls_mode then codes "relaytls:" else codes "smtp:") ++ nexthop_of r

module _ (decrypt : Text → Option Text) where
  unfoldable pub relay_credentials : OutboundRelay → Result RouteError Text
  unfolding same
  relay_credentials r =
      if not (same r.username []) || not (same r.encrypted_password [])
      then elim (decrypt r.encrypted_password) [
        | none ↦ err (undecryptable r.name)
        | some password ↦ ok (r.username ++ codes ":" ++ password)
      ]
      else ok []

  -- The entries of a nexthop that comes up for the first time.
  unfoldable pub first_seen : OutboundRelay → Text → Routing → Routing
  unfolding nexthop_of put same
  first_seen r creds d = record d {
    seen_nexthop = put (nexthop_of r) creds d.seen_nexthop;
    sasl_entries =
        d.sasl_entries
        ++ (if same creds []
            then []
            else record { nexthop = nexthop_of r; credentials = creds } ∷ []);
    tls_policies =
        d.tls_policies
        ++ (if is_starttls r.tls_mode
            then record { nexthop = nexthop_of r; policy = codes "encrypt" } ∷ []
            else []);
  }

  unfoldable pub see_nexthop : OutboundRelay → Text → Routing → Result RouteError Routing
  unfolding nexthop_of get same first_seen
  see_nexthop r creds d = elim (get (nexthop_of r) d.seen_nexthop) [
    | some prev ↦ if same prev creds then ok d else err (conflicting (nexthop_of r))
    | none ↦ ok (first_seen r creds d)
  ]

  unfoldable pub relay_transport : OutboundRelay → Routing → Result RouteError (Routing × Text)
  unfolding relay_credentials see_nexthop transport_of
  relay_transport r d = elim (relay_credentials r) [
    | err e ↦ err e
    | ok creds ↦ elim (see_nexthop r creds d) [ err e ↦ err e | ok d' ↦ ok (d', transport_of r) ]
  ]

  unfoldable pub transport_for : Resolved → Routing → Result RouteError (Routing × Text)
  unfolding relay_transport
  transport_for resolved d =
      if is_direct resolved.mode
      then ok (d, codes "smtp:")
      else elim resolved.relay [ none ↦ err no_relay | some r ↦ relay_transport r d ]

  unfoldable pub route_global : Resolved → Routing → Result RouteError Routing
  unfolding transport_for
  route_global resolved d =
      if is_direct resolved.mode
      then ok (record d { default_transport = codes "smtp" })
      else elim (transport_for resolved d) [
        | err e ↦ err e
        | ok (d', t) ↦ ok (record d' { default_transport = t })
      ]

  unfoldable pub route_resolved : Domain → Resolved → Routing → Result RouteError Routing
  unfolding transport_for
  route_resolved dom resolved d =
      if is_own resolved.source
      then elim (transport_for resolved d) [
        | err e ↦ err e
        | ok (d', t) ↦ ok (record d' {
          sender_transports =
              d'.sender_transports
              ++ record { sender_key = codes "@" ++ dom.name; transport = t } ∷ [];
        })
      ]
      else ok d

  unfoldable pub route_domain : Store → Domain → Routing → Result RouteError Routing
  unfolding route_resolved resolve_for_domain
  route_domain s dom d = elim (resolve_for_domain dom.id s) [
    | err e ↦ err (unresolved e)
    | ok resolved ↦ route_resolved dom resolved d
  ]

  unfoldable pub route_domains : Store → List Domain → Routing → Result RouteError Routing
  unfolding route_domain
  route_domains s [] d = ok d
  route_domains s (dom ∷ doms) d = elim (route_domain s dom d) [
    | err e ↦ err e
    | ok d' ↦ route_domains s doms d'
  ]

  unfoldable pub build_routing : Store → Result RouteError Routing
  unfolding route_global route_domains resolve_global list_domains
  build_routing s = elim (resolve_global s) [
    | err e ↦ err (unresolved e)
    | ok resolved ↦ elim (route_global resolved no_routing) [
      | err e ↦ err e
      | ok d ↦ route_domains s (list_domains s) d
    ]
  ]

module _ (file_exists : Text → Bool) where
  unfoldable pub sni_entries : List Certificate → List SniEntry
  unfolding select
  sni_entries cs =
      map (λ c. record { hostname = c.hostname; cert_path = c.cert_path; key_path = c.key_path })
        (select (λ c. is_active c.status && (file_exists c.cert_path && file_exists c.key_path)) cs)

  unfoldable pub build_tls : Store → List SniEntry
  unfolding sni_entries list_certificates
  build_tls s = sni_entries (list_certificates s)

  abbrev pub dkim_selector : Text
  dkim_selector = codes "wisp1"

  module _ (join : Text → Text → Text → Text) (dkim_dir : Text) where
    unfoldable pub dkim_keys : List Domain → List DkimKey
    dkim_keys [] = []
    dkim_keys (dom ∷ doms) =
        let rest = dkim_keys doms in
        let path = join dkim_dir dom.name (dkim_selector ++ codes ".private") in
        if file_exists path
        then record { domain = dom.name; selector = dkim_selector; key_path = path } ∷ rest
        else rest

    unfoldable pub build_dkim : List Domain → List DkimKey × Bool
    unfolding dkim_keys
    build_dkim doms = let keys = dkim_keys doms in (keys, ltb 0 (length keys))

-- Validate's errors, in the order of its tests.
pub data DataError : Type 0 where
  no_hostname no_transport : DataError
  malformed_address : Text → DataError

unfoldable pub validate_mailboxes : List Mailbox → Result DataError (Unit {0})
unfolding contains
validate_mailboxes [] = ok tt
validate_mailboxes (m ∷ ms) =
    let rest = validate_mailboxes ms in
    if contains m.email (codes "@") then rest else err (malformed_address m.email)

unfoldable pub validate_data : Text → Text → List Mailbox → Result DataError (Unit {0})
unfolding same validate_mailboxes
validate_data primary_hostname default_transport ms =
    if same primary_hostname []
    then err no_hostname
    else if same default_transport []
    then err no_transport
    else validate_mailboxes ms
