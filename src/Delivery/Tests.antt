-- ===== src/Delivery/Tests.antt =====
-- A relay, and a domain that sends through it.
use wispbox.Base.{ℕ, codes, true, [], none, some, ◌≡◌, ◌≢◌, refl, same, pos}
use wispbox.Base.Rows.{find, exists}
use wispbox.Db.Models.{OutboundRelay, OutboundPolicy, domain, relay, starttls}
use wispbox.Db.Tables.{Store, fresh}
use wispbox.Db.Relays.{create_relay}
use wispbox.Db.Policies.{put_policy, upsert_policy, get_policy_for_scope}
use wispbox.Delivery.Engine.{Resolved, resolve_for_domain, set_policy, from_domain}
use wispbox.Delivery.Engine.NoFallback.{Names, resolve_for_domain_relay}
use wispbox.Delivery.Engine.Choice.{asked_for, set_policy_refused, resolve_for_domain-set_policy}
use wispbox.Delivery.Engine.Stored.{Accepted, set_policy-Accepted}
use wispbox.Delivery.Relay.{validate_relay}
use wispbox.Delivery.Relay.Accepted.{IsUsable, validate_relay-IsUsable}
use wispbox.Delivery.Sound.{here, next, create, choose}
use wispbox.Delivery.Sound.Reached.{Resolves, resolve_for_domain-Reach}

abbrev outbound : OutboundRelay
outbound = record {
  id = 1;
  name = codes "out";
  provider = codes "custom";
  host = codes "smtp.example.net";
  port = pos 587;
  username = [];
  encrypted_password = [];
  tls_mode = starttls;
  enabled = true;
  created_at = 0;
  updated_at = 0;
}

abbrev with_relay : Store
with_relay = (create_relay 0 outbound (fresh 0)).0

abbrev chosen : Store
chosen = (set_policy 0 domain 7 relay (some 1) with_relay).0

resolve_for_domain-Reach_example : Resolves chosen (resolve_for_domain 7 chosen)
resolve_for_domain-Reach_example =
    resolve_for_domain-Reach 0 {s = chosen} 7
      (next (next here (create 0 outbound)) (choose 0 domain 7 relay (some 1)))

set_policy_refused_example : (set_policy 0 domain 7 relay none with_relay).0 ≡ with_relay
unfolding set_policy
set_policy_refused_example = set_policy_refused 0 domain 7 relay none with_relay refl

abbrev chosen_policy : OutboundPolicy
chosen_policy = record {
  id = 2;
  scope_type = domain;
  scope_id = 7;
  mode = relay;
  relay_id = some 1;
  enabled = true;
  created_at = 0;
  updated_at = 0;
}

abbrev decision : Resolved
decision = record { mode = relay; relay = some outbound; source = from_domain }

resolve_for_domain_relay_example :
    (decision.mode ≡ relay)
    × (r : OutboundRelay) × (decision.relay ≡ some r)
    × Names (some 1) chosen r
unfolding set_policy create_relay resolve_for_domain get_policy_for_scope upsert_policy find exists
    same put_policy
resolve_for_domain_relay_example =
    resolve_for_domain_relay 7 chosen chosen_policy decision refl refl refl refl

set_policy-Accepted_example :
    Accepted domain 7 relay (some 1) with_relay chosen chosen_policy
    × (get_policy_for_scope domain 8 chosen ≡ get_policy_for_scope domain 8 with_relay)
unfolding set_policy create_relay upsert_policy get_policy_for_scope find exists same put_policy
set_policy-Accepted_example =
    set_policy-Accepted 0 domain 7 relay (some 1) with_relay chosen_policy domain 8 refl refl

resolve_for_domain-set_policy_example :
    (resolve_for_domain 7 chosen ≡ asked_for relay (some 1) with_relay)
    × ((j : ℕ) → j ≢ 7 → resolve_for_domain j chosen ≡ resolve_for_domain j with_relay)
unfolding set_policy create_relay upsert_policy get_policy_for_scope find exists same put_policy
resolve_for_domain-set_policy_example =
    resolve_for_domain-set_policy 0 7 relay (some 1) with_relay chosen_policy refl

validate_relay-IsUsable_example : IsUsable outbound
unfolding validate_relay
validate_relay-IsUsable_example = validate_relay-IsUsable outbound refl
