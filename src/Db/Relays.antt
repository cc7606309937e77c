-- ===== src/Db/Relays.antt =====
-- internal/db/store_delivery.go, the outbound relays.
use wispbox.Base.{
  ℕ, Bool, false, not, ◌&&◌, List, Option, none, some, Result, ok, err, ltb, ◌==◌, if◌then◌else◌,
  same,
}
use wispbox.Base.Rows.{find, delete, update, exists, count, order_by}
use wispbox.Db.Errors.{Error, Entity, not_found, already_exists, relay_in_use, unique_violation}
use wispbox.Db.Models.{OutboundRelay, OutboundPolicy}
use wispbox.Db.Tables.{Store, append, with_rows, format_time}

unfoldable pub scan_relay : Option OutboundRelay → Result Error OutboundRelay
scan_relay none = err (not_found Entity.relay)
scan_relay (some r) = ok r

unfoldable pub get_relay : ℕ → Store → Result Error OutboundRelay
unfolding find scan_relay
get_relay id s = scan_relay (find (λ r. r.id == id) s.relays.rows)

-- `r` gives the columns; the id of the new row is the table's.
unfoldable pub create_relay : ℕ → OutboundRelay → Store → Store × Result Error OutboundRelay
unfolding exists same get_relay
create_relay now r s =
    let s' : Store = record s {
      relays = append s.relays (record r {
        id = s.relays.next;
        created_at = format_time now;
        updated_at = format_time now;
      });
    } in
    if exists (λ x. same x.name r.name) s.relays.rows
    then (s, err (already_exists Entity.relay))
    else (s', get_relay s.relays.next s')

unfoldable pub list_relays : Store → List OutboundRelay
unfolding order_by
list_relays s = order_by (λ r. r.name) s.relays.rows

-- `name` is UNIQUE, so that an update may not take the name of another row.
unfoldable pub update_relay : ℕ → OutboundRelay → Store → Store × Result Error (Unit {0})
unfolding exists same update
update_relay now r s =
    let change : OutboundRelay → OutboundRelay =
      λ x. record r { created_at = x.created_at; updated_at = format_time now } in
    if exists (λ x. x.id == r.id) s.relays.rows
      && exists (λ x. same x.name r.name && not (x.id == r.id)) s.relays.rows
    then (s, err unique_violation)
    else (
      record s { relays = with_rows s.relays (update (λ x. x.id == r.id) change s.relays.rows) },
      ok tt,
    )

-- x = y on the nullable column relay_id
abbrev pub refers_to : ℕ → OutboundPolicy → Bool
refers_to id p = elim p.relay_id [ none ↦ false | some r ↦ r == id ]

-- DELETE FROM outbound_relays, with ON DELETE SET NULL on the policies that refer to it.
unfoldable pub drop_relay : ℕ → Store → Store
unfolding delete update
drop_relay id s = record s {
  relays = with_rows s.relays (delete (λ r. r.id == id) s.relays.rows);
  policies =
      with_rows s.policies
        (update (refers_to id) (λ p. record p { relay_id = none }) s.policies.rows);
}

unfoldable pub delete_relay : ℕ → Store → Store × Result Error (Unit {0})
unfolding count exists
delete_relay id s =
    let in_use = count (λ p. refers_to id p && p.enabled) s.policies.rows in
    if ltb 0 in_use
    then (s, err (relay_in_use in_use))
    else if exists (λ r. r.id == id) s.relays.rows
    then (drop_relay id s, ok tt)
    else (s, err (not_found Entity.relay))
