-- ===== src/Delivery/Sound.antt =====
-- Over every sequence of policy and relay operations a policy that says `relay` names a stored relay,
-- so that resolving fails for a disabled relay and for nothing else.
pub mod OnRelays
pub mod OnPolicies
pub mod Reached
use wispbox.Base.{ℕ, Bool, true, false, List, Option, none, some, ◌≡◌, In, ◌==◌}
use wispbox.Base.Rows.{exists}
use wispbox.Db.Models.{OutboundRelay, OutboundPolicy, PolicyScope, DeliveryMode, global}
use wispbox.Db.Tables.{Store}
use wispbox.Db.Relays.{create_relay, update_relay, delete_relay}
use wispbox.Db.Policies.{delete_policy, in_scope, same_scope}
use wispbox.Delivery.Engine.{set_policy, is_relay, is_inherit}

abbrev pub has_relay : Option ℕ → List OutboundRelay → Bool
has_relay none relays = false
has_relay (some id) relays = exists (λ r. r.id == id) relays

-- A policy in force that the relays at hand can serve.
pub record IsServed (relays : List OutboundRelay) (p : OutboundPolicy) : Type 0 where
  pub on : p.enabled ≡ true
  pub relay_stored : is_relay p.mode ≡ true → has_relay p.relay_id relays ≡ true
  pub scope_ok : same_scope p.scope_type global ≡ true → is_inherit p.mode ≡ false

pub record Agree (relays : List OutboundRelay) (policies : List OutboundPolicy) : Type 0 where
  pub served : (p : OutboundPolicy) → In p policies → IsServed relays p
  pub default_row : exists (in_scope global 0) policies ≡ true

abbrev pub IsSound : Store → Type 0
IsSound s = Agree s.relays.rows s.policies.rows

-- The operations on relays and policies, with whatever arguments, and all else that leaves both
-- tables alone.
pub data Step (s : Store) : Store → Type 0 where
  create : (now : ℕ) (r : OutboundRelay) → Step s (create_relay now r s).0
  change : (now : ℕ) (r : OutboundRelay) → Step s (update_relay now r s).0
  remove : (id : ℕ) → Step s (delete_relay id s).0
  choose :
      (now : ℕ) (scope : PolicyScope) (id : ℕ) (mode : DeliveryMode) (relay_id : Option ℕ)
      → Step s (set_policy now scope id mode relay_id s).0
  forget : (id : ℕ) → Step s (delete_policy id s).0
  other : {t : Store} → t.relays ≡ s.relays → t.policies ≡ s.policies → Step s t

pub data Reach (s : Store) : Store → Type 0 where
  here : Reach s s
  next : {t u : Store} → Reach s t → Step t u → Reach s u
