-- ===== src/Delivery/Engine/NoFallback.antt =====
-- What the engine resolves to: a relay is never replaced by direct sending.
use wispbox.Base.{ℕ, true, Option, none, some, ok, ◌≡◌, arith, In, ◌==◌, false, inl, inr}
use wispbox.Base.Outcome.{Result-cases}
use wispbox.Base.Rows.{find-In}
use wispbox.Db.Models.{OutboundRelay, OutboundPolicy, domain, relay}
use wispbox.Db.Tables.{Store}
use wispbox.Db.Relays.{get_relay, scan_relay}
use wispbox.Db.Policies.{get_policy_for_scope}
use wispbox.Delivery.Engine.{
  Resolved, usable_relay, pick_relay, materialize, resolve_for_domain, from_domain, Source,
  is_inherit,
}

get_relay-In :
    (id : ℕ) (s : Store) {r : OutboundRelay}
    → get_relay id s ≡ ok r
    → In r s.relays.rows × (r.id ≡ id)
unfolding get_relay scan_relay
get_relay-In id s {r} h =
    ground (arith, find-In (λ (x : OutboundRelay). x.id == id) s.relays.rows {x = r})

-- The relay that a policy names is stored, enabled, and the one that it names.
pub record Names (relay_id : Option ℕ) (s : Store) (r : OutboundRelay) : Type 0 where
  pub stored : In r s.relays.rows
  pub named : relay_id ≡ some r.id
  pub on : r.enabled ≡ true

pub pick_relay-Names :
    (relay_id : Option ℕ) (s : Store) {r : OutboundRelay}
    → pick_relay relay_id s ≡ ok r
    → Names relay_id s r
unfolding pick_relay usable_relay
pick_relay-Names none s h = cc
pick_relay-Names (some id) s {r} h = record {
  stored = ground (arith, get_relay-In id s {r = r});
  named = ground (arith, get_relay-In id s {r = r});
  on = ground arith;
}

-- A domain whose own policy is in force is resolved by that policy alone.
resolve_own :
    (id : ℕ) (s : Store) (p : OutboundPolicy)
    → get_policy_for_scope domain id s ≡ ok p
    → p.enabled ≡ true
    → is_inherit p.mode ≡ false
    → resolve_for_domain id s ≡ materialize p from_domain s
unfolding resolve_for_domain
resolve_own id s p found enabled mode = rw (found, resolve_for_domain, enabled, mode)

materialize_relay :
    (p : OutboundPolicy) (source : Source) (s : Store) {res : Resolved}
    → p.mode ≡ relay
    → materialize p source s ≡ ok res
    → (res.mode ≡ relay) × (r : OutboundRelay) × (res.relay ≡ some r) × Names p.relay_id s r
unfolding materialize
materialize_relay p source s mode h = elim (Result-cases (pick_relay p.relay_id s)) [
  | inl (r, e) ↦ (ground arith, r, ground arith, pick_relay-Names p.relay_id s e)
  | inr (e, q) ↦ absurd (ground arith)
]

-- A domain whose own policy is in force and says `relay` is never resolved to anything but that
-- relay: a result has mode `relay` and carries the enabled stored relay that the policy names.
pub resolve_for_domain_relay :
    (id : ℕ) (s : Store) (p : OutboundPolicy) (res : Resolved)
    → get_policy_for_scope domain id s ≡ ok p
    → p.enabled ≡ true
    → p.mode ≡ relay
    → resolve_for_domain id s ≡ ok res
    → (res.mode ≡ relay) × (r : OutboundRelay) × (res.relay ≡ some r) × Names p.relay_id s r
resolve_for_domain_relay id s p res found enabled mode h =
    materialize_relay p from_domain s mode (rw (resolve_own id s p found enabled (rw mode)) at h)
