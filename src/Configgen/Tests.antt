-- ===== src/Configgen/Tests.antt =====
-- The table of sender logins of two mailboxes.
use wispbox.Base.{codes, [], ◌∷◌, ◌↔◌, ◌⊎◌, ◌≡◌, refl, true, some, Result, ok, err, In, inl, pos}
use wispbox.Db.Models.{OutboundRelay, OutboundPolicy, Domain, DomainStatus, domain, relay, starttls}
use wispbox.Db.Tables.{Store, fresh, append}
use wispbox.Db.Domains.{list_domains}
use wispbox.Delivery.Engine.{Resolved, from_domain, resolve_for_domain}
use wispbox.Configgen.Routing.{
  Routing, RouteError, no_routing, build_routing, relay_credentials, nexthop_of,
}
use wispbox.Configgen.Routing.Lines.{login_at}
use wispbox.Configgen.Routing.Credentials.{own_entry}
use wispbox.Configgen.Routing.Logins.{build_routing-relay}
use wispbox.Configgen.SenderLogins.{build_sender_logins}
use wispbox.Configgen.SenderLogins.Grants.{
  Grants, OwnAddress, AliasAddress, build_sender_logins-Grants,
}
use wispbox.MailApi.Tests.{eve}

build_sender_logins-Grants_example :
    Grants (codes "eve@a.io") (codes "eve@a.io") (build_sender_logins (eve ∷ []) []) ↔ (
      OwnAddress (codes "eve@a.io") (codes "eve@a.io") (eve ∷ [])
      ⊎ AliasAddress (eve ∷ []) (codes "eve@a.io") (codes "eve@a.io") [])
build_sender_logins-Grants_example =
    build_sender_logins-Grants (codes "eve@a.io") (codes "eve@a.io") (eve ∷ []) []

abbrev outbound : OutboundRelay
outbound = record {
  id = 1;
  name = codes "out";
  provider = codes "custom";
  host = codes "smtp.example.net";
  port = pos 587;
  username = codes "u";
  encrypted_password = codes "p";
  tls_mode = starttls;
  enabled = true;
  created_at = 0;
  updated_at = 0;
}

abbrev x_y : Domain
x_y = record {
  id = 1;
  name = codes "x.y";
  mail_hostname = codes "mail.x.y";
  status = DomainStatus.pending;
  created_at = 0;
  updated_at = 0;
}

abbrev own_policy : OutboundPolicy
own_policy = record {
  id = 2;
  scope_type = domain;
  scope_id = 1;
  mode = relay;
  relay_id = some 1;
  enabled = true;
  created_at = 0;
  updated_at = 0;
}

abbrev routed_store : Store
routed_store = record (fresh 0) {
  domains = record { rows = x_y ∷ []; next = 2 };
  relays = record { rows = outbound ∷ []; next = 2 };
  policies = append (fresh 0).policies own_policy;
}

abbrev built : Result RouteError Routing → Routing
built (ok d) = d
built (err e) = no_routing

abbrev routed : Routing
routed = built (build_routing some routed_store)

abbrev own_decision : Resolved
own_decision = record { mode = relay; relay = some outbound; source = from_domain }

build_routing-relay_example :
    In (own_entry x_y outbound) routed.sender_transports
    × (relay_credentials some outbound ≡ ok (login_at (nexthop_of outbound) routed.sasl_entries))
unfolding build_routing list_domains resolve_for_domain
build_routing-relay_example =
    build_routing-relay some routed_store routed (some x_y) own_decision outbound refl
      (inl refl, refl, refl) refl refl
