-- ===== src/Db/Policies.antt =====
-- internal/db/store_delivery.go, the outbound policies.
pub mod Lookup
use wispbox.Base.{
  ℕ, Bool, true, false, not, ◌&&◌, Option, none, some, Result, ok, err, ◌==◌, if◌then◌else◌,
}
use wispbox.Base.Rows.{find, delete, update, exists}
use wispbox.Db.Errors.{Error, Entity, not_found}
use wispbox.Db.Models.{OutboundPolicy, PolicyScope, global, domain, mailbox, DeliveryMode}
use wispbox.Db.Tables.{Store, append, with_rows, format_time}

abbrev pub same_scope : PolicyScope → PolicyScope → Bool
same_scope global global = true
same_scope domain domain = true
same_scope mailbox mailbox = true
same_scope _ _ = false

-- scope_type = ? AND scope_id = ?, the UNIQUE pair
abbrev pub in_scope : PolicyScope → ℕ → OutboundPolicy → Bool
in_scope scope scope_id p = same_scope p.scope_type scope && (p.scope_id == scope_id)

unfoldable pub scan_policy : Option OutboundPolicy → Result Error OutboundPolicy
scan_policy none = err (not_found Entity.policy)
scan_policy (some p) = ok p

unfoldable pub get_policy_for_scope : PolicyScope → ℕ → Store → Result Error OutboundPolicy
unfolding find scan_policy
get_policy_for_scope scope scope_id s = scan_policy (find (in_scope scope scope_id) s.policies.rows)

abbrev pub revised : ℕ → DeliveryMode → Option ℕ → OutboundPolicy → OutboundPolicy
revised now mode relay_id p = record p {
  mode = mode;
  relay_id = relay_id;
  enabled = true;
  updated_at = format_time now;
}

abbrev pub added : ℕ → ℕ → PolicyScope → ℕ → DeliveryMode → Option ℕ → OutboundPolicy
added now id scope scope_id mode relay_id = record {
  id = id;
  scope_type = scope;
  scope_id = scope_id;
  mode = mode;
  relay_id = relay_id;
  enabled = true;
  created_at = format_time now;
  updated_at = format_time now;
}

-- INSERT … ON CONFLICT(scope_type, scope_id) DO UPDATE
unfoldable pub put_policy : ℕ → PolicyScope → ℕ → DeliveryMode → Option ℕ → Store → Store
unfolding exists update
put_policy now scope scope_id mode relay_id s =
    let changed = update (in_scope scope scope_id) (revised now mode relay_id) s.policies.rows in
    let row = added now s.policies.next scope scope_id mode relay_id in
    if exists (in_scope scope scope_id) s.policies.rows
    then record s { policies = with_rows s.policies changed }
    else record s { policies = append s.policies row }

unfoldable pub upsert_policy :
    ℕ → PolicyScope → ℕ → DeliveryMode → Option ℕ → Store → Store × Result Error OutboundPolicy
upsert_policy now scope scope_id mode relay_id s =
    let s' = put_policy now scope scope_id mode relay_id s in
    (s', get_policy_for_scope scope scope_id s')

abbrev pub is_global : OutboundPolicy → Bool
is_global p = same_scope p.scope_type global

-- The global default row stays.
unfoldable pub delete_policy : ℕ → Store → Store × Result Error (Unit {0})
unfolding exists delete
delete_policy id s =
    let chosen : OutboundPolicy → Bool = λ p. (p.id == id) && not (is_global p) in
    if exists chosen s.policies.rows
    then (record s { policies = with_rows s.policies (delete chosen s.policies.rows) }, ok tt)
    else (s, err (not_found Entity.policy))
