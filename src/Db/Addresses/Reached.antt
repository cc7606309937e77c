-- ===== src/Db/Addresses/Reached.antt =====
-- Every sequence of operations on domains, mailboxes and aliases, from the migrated database.
use wispbox.Base.{ℕ, Text, Bool, Option, ℤ, ◌≡◌, refl, subst, In}
use wispbox.Db.Models.{DomainStatus}
use wispbox.Db.Tables.{Store, fresh}
use wispbox.Db.Domains.{create_domain, update_domain_status, delete_domain}
use wispbox.Db.Mailboxes.{
  create_mailbox, update_mailbox, update_mailbox_password,
  update_mailbox_password_and_passkey_secret, update_mailbox_totp, update_mailbox_webauthn_handle,
  delete_mailbox,
}
use wispbox.Db.Aliases.{create_alias, update_alias_enabled, delete_alias}
use wispbox.Db.Addresses.{IsAddressed, create_domain-IsAddressed}
use wispbox.Db.Addresses.OnRows.{
  set_mailbox-IsAddressed, update_alias_enabled-IsAddressed, update_domain_status-IsAddressed,
  delete_domain-IsAddressed, delete_mailbox-IsAddressed, delete_alias-IsAddressed,
}
use wispbox.Db.Addresses.OnMailboxes.{create_mailbox-IsAddressed}
use wispbox.Db.Addresses.Sources.{create_alias-IsAddressed}

module _ (parse_address : Text → Option Text) where
  -- The operations, with whatever arguments, and all else that leaves the three tables alone.
  pub data Step (s : Store) : Store → Type 0 where
    add_domain :
        (now : ℕ) (name mail_hostname : Text) → Step s (create_domain now name mail_hostname s).0
    change_domain :
        (now id : ℕ) (status : DomainStatus) → Step s (update_domain_status now id status s)
    drop_domain : (id : ℕ) → Step s (delete_domain id s).0
    add_mailbox :
        (now domain_id : ℕ) (local_part password_hash : Text) (quota_mb : ℤ)
        → Step s (create_mailbox now domain_id local_part password_hash quota_mb s).0
    change_mailbox :
        (now id : ℕ) (quota_mb : ℤ) (enabled : Bool)
        → Step s (update_mailbox now id quota_mb enabled s)
    change_password : (now id : ℕ) (hash : Text) → Step s (update_mailbox_password now id hash s)
    change_password_and_secret :
        (now id : ℕ) (hash secret : Text)
        → Step s (update_mailbox_password_and_passkey_secret now id hash secret s)
    change_totp :
        (now id : ℕ) (enabled : Bool) (secret : Text)
        → Step s (update_mailbox_totp now id enabled secret s)
    change_handle :
        (now id : ℕ) (handle : Text) → Step s (update_mailbox_webauthn_handle now id handle s)
    drop_mailbox : (id : ℕ) → Step s (delete_mailbox id s).0
    add_alias :
        (now domain_id : ℕ) (source destination : Text) (is_catch_all : Bool)
        → Step s (create_alias parse_address now domain_id source destination is_catch_all s).0
    change_alias : (now id : ℕ) (enabled : Bool) → Step s (update_alias_enabled now id enabled s)
    drop_alias : (id : ℕ) → Step s (delete_alias id s).0
    other :
        {t : Store}
        → t.domains ≡ s.domains
        → t.mailboxes ≡ s.mailboxes
        → t.aliases ≡ s.aliases
        → Step s t

  pub data Reach (s : Store) : Store → Type 0 where
    here : Reach s s
    next : {t u : Store} → Reach s t → Step t u → Reach s u

  Step-IsAddressed : {s t : Store} → Step s t → IsAddressed s → IsAddressed t
  unfolding update_mailbox update_mailbox_password update_mailbox_password_and_passkey_secret
      update_mailbox_totp update_mailbox_webauthn_handle
  Step-IsAddressed {s} (add_domain now name mail_hostname) h =
      create_domain-IsAddressed now name mail_hostname s h
  Step-IsAddressed {s} (change_domain now id status) h =
      update_domain_status-IsAddressed now id status s h
  Step-IsAddressed {s} (drop_domain id) h = delete_domain-IsAddressed id s h
  Step-IsAddressed {s} (add_mailbox now domain_id local_part password_hash quota_mb) h =
      create_mailbox-IsAddressed now domain_id local_part password_hash quota_mb s h
  Step-IsAddressed {s} (change_mailbox now id quota_mb enabled) h =
      set_mailbox-IsAddressed id _ s (λ m. refl) h
  Step-IsAddressed {s} (change_password now id hash) h =
      set_mailbox-IsAddressed id _ s (λ m. refl) h
  Step-IsAddressed {s} (change_password_and_secret now id hash secret) h =
      set_mailbox-IsAddressed id _ s (λ m. refl) h
  Step-IsAddressed {s} (change_totp now id enabled secret) h =
      set_mailbox-IsAddressed id _ s (λ m. refl) h
  Step-IsAddressed {s} (change_handle now id handle) h =
      set_mailbox-IsAddressed id _ s (λ m. refl) h
  Step-IsAddressed {s} (drop_mailbox id) h = delete_mailbox-IsAddressed id s h
  Step-IsAddressed {s} (add_alias now domain_id source destination is_catch_all) h =
      create_alias-IsAddressed parse_address now domain_id source destination is_catch_all s h
  Step-IsAddressed {s} (change_alias now id enabled) h =
      update_alias_enabled-IsAddressed now id enabled s h
  Step-IsAddressed {s} (drop_alias id) h = delete_alias-IsAddressed id s h
  Step-IsAddressed {s} {t} (other d m a) h = record {
    domains = λ x k. h.domains x (subst (λ q. In x q.rows) d k);
    mailboxes = λ x k. h.mailboxes x (subst (λ q. In x q.rows) m k);
    aliases = λ x k. h.aliases x (subst (λ q. In x q.rows) a k);
  }

  fresh-IsAddressed : (now : ℕ) → IsAddressed (fresh now)
  fresh-IsAddressed now = record {
    domains = λ d m. absurd m;
    mailboxes = λ d m. absurd m;
    aliases = λ d m. absurd m;
  }

  -- In every store that the operations reach from the migrated database, domain names, mailbox
  -- addresses and alias destinations are trimmed and in lower case, domain names are not empty, and an
  -- alias is a catch-all exactly if its source begins with `@`.
  pub Reach-IsAddressed : (now : ℕ) {s : Store} → Reach (fresh now) s → IsAddressed s
  Reach-IsAddressed now here = fresh-IsAddressed now
  Reach-IsAddressed now (next r step) = Step-IsAddressed step (Reach-IsAddressed now r)
