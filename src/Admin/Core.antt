-- ===== src/Admin/Core.antt =====
-- internal/admin/core.go. `apply` is Generator.Apply, with the message of its error; `hash_password` is
-- auth.HashMailboxPassword and `encrypt` security.Encrypt under the server's secret. The key and the mail
-- directory that go with a new row are files, whose errors are only logged. A removed row is read before
-- it goes.
pub mod Relays
use wispbox.Base.{
  ℕ, Text, codes, Bool, true, false, not, ◌&&◌, List, [], ◌++◌, ◌∷◌, Option, none, some, Result, ok,
  err, ◌==◌, if◌then◌else◌, same, trim_space, ℤ, pos, negsuc,
}
use wispbox.Base.Outcome.{checked}
use wispbox.Db.Errors.{Error}
use wispbox.Db.Models.{
  Domain, Mailbox, Alias, OutboundRelay, OutboundPolicy, PolicyScope, DeliveryMode, direct, TlsMode,
}
use wispbox.Db.Tables.{Store}
use wispbox.Db.Domains.{create_domain, get_domain, delete_domain}
use wispbox.Db.Mailboxes.{
  create_mailbox, get_mailbox, update_mailbox, update_mailbox_password_and_passkey_secret,
  delete_mailbox,
}
use wispbox.Db.Aliases.{create_alias, get_alias, update_alias_enabled, delete_alias}
use wispbox.Db.Relays.{create_relay, get_relay, update_relay, delete_relay}
use wispbox.Db.Policies.{delete_policy}
use wispbox.Db.Settings.{get_setting_default}
use wispbox.Delivery.Relay.{RelayError, validate_relay, validate_relay_password}
use wispbox.Delivery.Engine.{set_policy}
use wispbox.Certs.Manager.{ensure_tracked}

pub data CoreError : Type 0 where
  stored : Error → CoreError
  bad_relay : RelayError → CoreError
  unusable_password password_required relay_password_required unencryptable port_25_closed :
      CoreError

abbrev pub lifted : {A : Type 0} → Result Error A → Result CoreError A
lifted (ok a) = ok a
lifted (err e) = err (stored e)

abbrev pub on_relay : {A : Type 0} → Result RelayError A → Result CoreError A
on_relay (ok a) = ok a
on_relay (err e) = err (bad_relay e)

-- What an operation answers: its row, and the warning.
abbrev pub Answer : Type 0 → Type 0
Answer A = Store × Result CoreError (A × Text)

-- The columns that SaveRelay is given.
pub record RelayForm : Type 0 where
  pub id : ℕ
  pub name : Text
  pub provider : Text
  pub host : Text
  pub port : ℤ
  pub username : Text
  pub password : Text
  pub tls_mode : TlsMode
  pub enabled : Bool

abbrev pub relay_of : RelayForm → Text → OutboundRelay
relay_of f encrypted = record {
  id = f.id;
  name = trim_space f.name;
  provider = f.provider;
  host = trim_space f.host;
  port = f.port;
  username = f.username;
  encrypted_password = encrypted;
  tls_mode = f.tls_mode;
  enabled = f.enabled;
  created_at = 0;
  updated_at = 0;
}

-- The quota asked for, no less than 0, or else the one that stands.
abbrev pub new_quota : Option ℤ → ℤ → ℤ
new_quota none quota = quota
new_quota (some (pos n)) quota = pos n
new_quota (some (negsuc n)) quota = pos 0

abbrev pub new_enabled : Option Bool → Bool → Bool
new_enabled none on = on
new_enabled (some b) on = b

-- Config.IsDev, and whether port 25 is open to the outside.
pub record Host : Type 0 where
  pub is_dev : Bool
  pub port_25_open : Bool

unfoldable pub outbound_smtp25_status : Host → Option Bool
outbound_smtp25_status h = if h.is_dev then none else some h.port_25_open

unfoldable pub direct_sending_available : Host → Bool
unfolding outbound_smtp25_status
direct_sending_available h =
    if h.is_dev
    then true
    else elim (outbound_smtp25_status h) [ none ↦ false | some reachable ↦ reachable ]

abbrev pub is_direct : DeliveryMode → Bool
is_direct direct = true
is_direct _ = false

module _ (apply : Store → Option Text) where
  unfoldable pub regen : Store → Text
  regen s = elim (apply s) [
    | none ↦ []
    | some e ↦ codes "Saved, but mail server configuration could not be regenerated: " ++ e
  ]

  abbrev pub answered : {A : Type 0} → Store → A → Answer A
  answered s a = (s, ok (a, regen s))

  unfoldable pub provision_domain : ℕ → Text → Text → Store → Answer Domain
  unfolding create_domain ensure_tracked regen
  provision_domain now name mail_hostname s =
      let (s', made) = create_domain now name mail_hostname s in
      checked (lifted made) s'
        λ dom. answered (ensure_tracked now dom.id dom.mail_hostname s').0 dom

  unfoldable pub remove_domain : ℕ → Store → Answer Domain
  unfolding get_domain delete_domain regen
  remove_domain id s =
      checked (lifted (get_domain id s)) s
        λ dom. let (s', gone) = delete_domain id s in checked (lifted gone) s' λ _. answered s' dom

  unfoldable pub change_mailbox : ℕ → ℕ → Option ℤ → Option Bool → Store → Answer Mailbox
  unfolding get_mailbox update_mailbox regen
  change_mailbox now id quota enabled s = checked (lifted (get_mailbox id s)) s λ mb.
      let s' =
        update_mailbox now id (new_quota quota mb.quota_mb) (new_enabled enabled mb.enabled) s in
      checked (lifted (get_mailbox id s')) s' λ updated. answered s' updated

  unfoldable pub remove_mailbox : ℕ → Store → Answer Mailbox
  unfolding get_mailbox delete_mailbox regen
  remove_mailbox id s =
      checked (lifted (get_mailbox id s)) s
        λ mb. let (s', gone) = delete_mailbox id s in checked (lifted gone) s' λ _. answered s' mb

  unfoldable pub add_alias :
      (Text → Option Text) → ℕ → ℕ → Text → Text → Bool → Store → Answer Alias
  unfolding create_alias regen
  add_alias parse_address now domain_id source destination is_catch_all s =
      let (s', made) = create_alias parse_address now domain_id source destination is_catch_all s in
      checked (lifted made) s' λ a. answered s' a

  unfoldable pub switch_alias : ℕ → ℕ → Bool → Store → Answer Alias
  unfolding update_alias_enabled get_alias regen
  switch_alias now id enabled s =
      let s' = update_alias_enabled now id enabled s in
      checked (lifted (get_alias id s')) s' λ a. answered s' a

  unfoldable pub remove_alias : ℕ → Store → Answer Alias
  unfolding get_alias delete_alias regen
  remove_alias id s =
      checked (lifted (get_alias id s)) s
        λ a. let (s', gone) = delete_alias id s in checked (lifted gone) s' λ _. answered s' a

  unfoldable pub remove_relay : ℕ → Store → Answer OutboundRelay
  unfolding get_relay delete_relay regen
  remove_relay id s =
      checked (lifted (get_relay id s)) s
        λ r. let (s', gone) = delete_relay id s in checked (lifted gone) s' λ _. answered s' r

  unfoldable pub choose_policy :
      Host → ℕ → PolicyScope → ℕ → DeliveryMode → Option ℕ → Store → Answer OutboundPolicy
  unfolding direct_sending_available set_policy regen
  choose_policy host now scope scope_id mode relay_id s =
      let (s', set) = set_policy now scope scope_id mode relay_id s in
      let chosen = checked (lifted set) s' λ p. answered s' p in
      if is_direct mode && not (direct_sending_available host)
      then (s, err port_25_closed)
      else chosen

  unfoldable pub remove_policy : ℕ → Store → Answer (Unit {0})
  unfolding delete_policy regen
  remove_policy id s =
      let (s', gone) = delete_policy id s in checked (lifted gone) s' λ u. answered s' u

  module _ (encrypt : Text → Option Text) where
    -- The password to store: none was given where it is empty.
    unfoldable pub encrypted_of : Text → Result CoreError Text
    unfolding same
    encrypted_of password =
        if same password []
        then ok []
        else elim (encrypt password) [ none ↦ err unencryptable | some e ↦ ok e ]

    unfoldable pub insert_relay : ℕ → OutboundRelay → Store → Answer OutboundRelay
    unfolding create_relay regen same
    insert_relay now r s =
        let (s', made) = create_relay now r s in
        if same r.encrypted_password [] && not (same r.username [])
        then (s, err relay_password_required)
        else checked (lifted made) s' λ saved. answered s' saved

    unfoldable pub replace_relay : ℕ → OutboundRelay → Store → Answer OutboundRelay
    unfolding get_relay update_relay regen same
    replace_relay now r s = checked (lifted (get_relay r.id s)) s λ existing.
        let kept =
          if same r.encrypted_password []
          then existing.encrypted_password
          else r.encrypted_password in
        let (s', updated) = update_relay now (record r { encrypted_password = kept }) s in
        checked (lifted updated) s'
          λ _. checked (lifted (get_relay r.id s')) s' λ saved. answered s' saved

    unfoldable pub save_relay : ℕ → RelayForm → Store → Answer OutboundRelay
    unfolding validate_relay validate_relay_password encrypted_of insert_relay replace_relay
    save_relay now f s = checked (on_relay (validate_relay (relay_of f []))) s λ _.
        checked (on_relay (validate_relay_password f.password)) s λ _.
          checked (encrypted_of f.password) s λ encrypted.
            if f.id == 0
            then insert_relay now (relay_of f encrypted) s
            else replace_relay now (relay_of f encrypted) s

  module _ (hash_password : Text → Option Text) where
    unfoldable pub provision_mailbox : ℕ → ℕ → Text → Text → ℤ → Store → Answer Mailbox
    unfolding create_mailbox regen
    provision_mailbox now domain_id local_part password quota s = elim (hash_password password) [
      | none ↦ (s, err unusable_password)
      | some hash ↦
          let (s', made) = create_mailbox now domain_id local_part hash quota s in
          checked (lifted made) s' λ mb. answered s' mb
    ]

    unfoldable pub reset_mailbox_password :
        (Text → Option Text) → ℕ → ℕ → Text → Store → Store × Result CoreError Mailbox
    unfolding get_mailbox update_mailbox_password_and_passkey_secret same
    reset_mailbox_password encrypt now id password s =
        if same password []
        then (s, err password_required)
        else checked (lifted (get_mailbox id s)) s λ mb. elim (hash_password password) [
          | none ↦ (s, err unusable_password)
          | some hash ↦ elim (encrypt password) [
            | none ↦ (s, err unencryptable)
            | some secret ↦ (update_mailbox_password_and_passkey_secret now id hash secret s, ok mb)
          ]
        ]

-- What feeds the preflight of the certificate manager.
abbrev pub set_ip : Text → Store → List Text
set_ip key s = let ip = get_setting_default key [] s in if same ip [] then [] else ip ∷ []

unfoldable pub server_ips : Store → List Text
unfolding get_setting_default same
server_ips s = set_ip (codes "server_ipv4") s ++ set_ip (codes "server_ipv6") s
