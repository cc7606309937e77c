-- ===== src/Admin/Tests.antt =====
-- A relay whose host is changed, with the password left as it is.
use wispbox.Base.{Text, codes, [], ◌∷◌, Option, none, some, ok, pos, true, ◌≡◌, refl}
use wispbox.Db.Models.{OutboundRelay, starttls}
use wispbox.Db.Tables.{Store, fresh, format_time}
use wispbox.Db.Relays.{get_relay}
use wispbox.Delivery.Relay.{validate_relay, validate_relay_password}
use wispbox.Admin.Core.{RelayForm, relay_of, encrypted_of, save_relay}
use wispbox.Admin.Core.Relays.{kept_password, save_relay_update}

abbrev old : OutboundRelay
old = record {
  id = 1;
  name = codes "out";
  provider = codes "custom";
  host = codes "smtp.example.net";
  port = pos 587;
  username = codes "u";
  encrypted_password = codes "p";
  tls_mode = starttls;
  enabled = true;
  created_at = 3;
  updated_at = 4;
}

abbrev store : Store
store = record (fresh 0) { relays = record { rows = old ∷ []; next = 2 } }

abbrev moved : RelayForm
moved = record {
  id = 1;
  name = codes "out";
  provider = codes "custom";
  host = codes " smtp2.example.net ";
  port = pos 587;
  username = codes "u";
  password = [];
  tls_mode = starttls;
  enabled = true;
}

abbrev unfailing : Store → Option Text
unfailing s = none

abbrev saved : OutboundRelay
saved = record old { host = codes "smtp2.example.net"; updated_at = 7 }

save_relay_update_example :
    (validate_relay (relay_of moved []) ≡ ok tt)
    × (validate_relay_password [] ≡ ok tt)
    × (existing : OutboundRelay) × (encrypted : Text) × (get_relay 1 store ≡ ok existing)
    × (encrypted_of unfailing some [] ≡ ok encrypted)
    × (get_relay 1 (save_relay unfailing some 7000000 moved store).0 ≡ ok saved)
    × (saved ≡ record (relay_of moved (kept_password encrypted existing)) {
      created_at = existing.created_at;
      updated_at = format_time 7000000;
    })
unfolding save_relay
save_relay_update_example = save_relay_update unfailing some 7000000 moved saved [] store refl refl
