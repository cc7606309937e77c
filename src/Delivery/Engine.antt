-- ===== src/Delivery/Engine.antt =====
-- internal/delivery/delivery.go, the engine.
pub mod NoFallback
pub mod Choice
pub mod Stored
use wispbox.Base.{
  ℕ, Bool, true, false, not, ◌&&◌, Option, none, some, Result, ok, err, if◌then◌else◌,
}
use wispbox.Base.Outcome.{checked}
use wispbox.Db.Errors.{
  Error, invalid_mode, global_inherit, relay_not_selected, relay_missing, relay_disabled,
  global_policy_missing,
}
use wispbox.Db.Models.{
  OutboundRelay, OutboundPolicy, PolicyScope, global, domain, DeliveryMode, direct, relay, inherit,
  unknown,
}
use wispbox.Db.Tables.{Store}
use wispbox.Db.Relays.{get_relay}
use wispbox.Db.Policies.{get_policy_for_scope, upsert_policy}

pub data Source : Type 0 where
  from_domain from_global : Source

pub record Resolved : Type 0 where
  pub mode : DeliveryMode
  pub relay : Option OutboundRelay
  pub source : Source

unfoldable pub usable_relay : Result Error OutboundRelay → Result Error OutboundRelay
usable_relay (err e) = err relay_missing
usable_relay (ok r) = if r.enabled then ok r else err relay_disabled

unfoldable pub pick_relay : Option ℕ → Store → Result Error OutboundRelay
unfolding usable_relay get_relay
pick_relay none s = err relay_not_selected
pick_relay (some id) s = usable_relay (get_relay id s)

abbrev pub is_relay : DeliveryMode → Bool
is_relay relay = true
is_relay _ = false

abbrev pub is_inherit : DeliveryMode → Bool
is_inherit inherit = true
is_inherit _ = false

abbrev with_relay : DeliveryMode → Source → Result Error OutboundRelay → Result Error Resolved
with_relay mode source (err e) = err e
with_relay mode source (ok r) = ok (record { mode = mode; relay = some r; source = source })

unfoldable pub materialize : OutboundPolicy → Source → Store → Result Error Resolved
unfolding pick_relay
materialize p source s =
    if is_relay p.mode
    then with_relay p.mode source (pick_relay p.relay_id s)
    else ok (record { mode = p.mode; relay = none; source = source })

-- The global scope has nothing to inherit from: there `inherit` is read as `direct`.
unfoldable pub resolve_global_policy : Result Error OutboundPolicy → Store → Result Error Resolved
unfolding materialize
resolve_global_policy (err e) s = err global_policy_missing
resolve_global_policy (ok p) s =
    if is_inherit p.mode
    then ok (record { mode = direct; relay = none; source = Source.from_global })
    else materialize p from_global s

unfoldable pub resolve_global : Store → Result Error Resolved
unfolding resolve_global_policy get_policy_for_scope
resolve_global s = resolve_global_policy (get_policy_for_scope global 0 s) s

unfoldable pub resolve_domain_policy : Result Error OutboundPolicy → Store → Result Error Resolved
unfolding materialize resolve_global
resolve_domain_policy (err e) s = resolve_global s
resolve_domain_policy (ok p) s =
    if p.enabled && not (is_inherit p.mode) then materialize p from_domain s else resolve_global s

unfoldable pub resolve_for_domain : ℕ → Store → Result Error Resolved
unfolding resolve_domain_policy get_policy_for_scope
resolve_for_domain domain_id s = resolve_domain_policy (get_policy_for_scope domain domain_id s) s

abbrev check_mode : PolicyScope → DeliveryMode → Result Error (Unit {0})
check_mode scope (unknown _) = err invalid_mode
check_mode global inherit = err global_inherit
check_mode scope mode = ok tt

-- The relay that the policy is to name: none unless the mode is `relay`.
unfoldable pub chosen_relay : DeliveryMode → Option ℕ → Store → Result Error (Option ℕ)
unfolding pick_relay
chosen_relay relay none s = err relay_not_selected
chosen_relay relay (some id) s = elim (pick_relay (some id) s) [
  | err e ↦ err e
  | ok _ ↦ ok (some id)
]
chosen_relay mode relay_id s = ok none

unfoldable pub set_policy :
    ℕ → PolicyScope → ℕ → DeliveryMode → Option ℕ → Store → Store × Result Error OutboundPolicy
unfolding chosen_relay upsert_policy
set_policy now scope scope_id mode relay_id s =
    checked (check_mode scope mode) s
      λ _. checked (chosen_relay mode relay_id s) s λ id. upsert_policy now scope scope_id mode id s
