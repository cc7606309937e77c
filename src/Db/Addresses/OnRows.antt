-- ===== src/Db/Addresses/OnRows.antt =====
-- The operations that change or delete rows keep what the tables satisfy.
use wispbox.Base.{ℕ, Bool, ◌≡◌, arith, IsNormal, Bool-cases, inl, inr, ◌==◌, subst, sym, ◌∙◌, same}
use wispbox.Base.Rows.{exists, In-update, In-delete}
use wispbox.Db.Models.{DomainStatus, Mailbox}
use wispbox.Db.Tables.{Store, format_time}
use wispbox.Db.Domains.{update_domain_status, delete_domain}
use wispbox.Db.Mailboxes.{set_mailbox, delete_mailbox}
use wispbox.Db.Aliases.{update_alias_enabled, delete_alias}
use wispbox.Db.Addresses.{IsAddressed}

pub set_mailbox-IsAddressed :
    (id : ℕ) (change : Mailbox → Mailbox) (s : Store)
    → ((m : Mailbox) → (change m).email ≡ m.email)
    → IsAddressed s
    → IsAddressed (set_mailbox id change s)
unfolding set_mailbox
set_mailbox-IsAddressed id change s same h = record {
  domains = h.domains;
  mailboxes = λ m mem.
      let (q, mq, e) = In-update (λ m. m.id == id) change s.mailboxes.rows m mem in
      subst IsNormal (ground (arith, same q)) (h.mailboxes q mq);
  aliases = h.aliases;
}

pub update_alias_enabled-IsAddressed :
    (now id : ℕ) (enabled : Bool) (s : Store)
    → IsAddressed s
    → IsAddressed (update_alias_enabled now id enabled s)
unfolding update_alias_enabled
update_alias_enabled-IsAddressed now id enabled s h = record {
  domains = h.domains;
  mailboxes = h.mailboxes;
  aliases = λ a mem.
      let (q, mq, e) =
        In-update (λ a. a.id == id)
          (λ a. record a { enabled = enabled; updated_at = format_time now }) s.aliases.rows a
          mem in
      record {
        normal = subst IsNormal (ground arith) (h.aliases q mq).normal;
        marked = ground (arith, (h.aliases q mq).marked);
      };
}

pub update_domain_status-IsAddressed :
    (now id : ℕ) (status : DomainStatus) (s : Store)
    → IsAddressed s
    → IsAddressed (update_domain_status now id status s)
unfolding update_domain_status
update_domain_status-IsAddressed now id status s h = record {
  domains = λ d mem.
      let (q, mq, e) =
        In-update (λ d. d.id == id)
          (λ d. record d { status = status; updated_at = format_time now }) s.domains.rows d mem in
      let same : d.name ≡ q.name = ground arith in
      record {
        normal = subst IsNormal (sym same) (h.domains q mq).normal;
        named = λ k. (h.domains q mq).named (sym same ∙ k);
      };
  mailboxes = h.mailboxes;
  aliases = h.aliases;
}

pub delete_domain-IsAddressed :
    (id : ℕ) (s : Store) → IsAddressed s → IsAddressed (delete_domain id s).0
unfolding delete_domain
delete_domain-IsAddressed id s h = elim (Bool-cases (exists (λ d. d.id == id) s.domains.rows)) [
  | inr e ↦ rw e h
  | inl e ↦ rw e (record {
    domains = λ d m. h.domains d ((In-delete (λ d. d.id == id) s.domains.rows d).0 m).0;
    mailboxes =
        λ b m. h.mailboxes b ((In-delete (λ m. m.domain_id == id) s.mailboxes.rows b).0 m).0;
    aliases = λ a m. h.aliases a ((In-delete (λ a. a.domain_id == id) s.aliases.rows a).0 m).0;
  })
]

pub delete_mailbox-IsAddressed :
    (id : ℕ) (s : Store) → IsAddressed s → IsAddressed (delete_mailbox id s).0
unfolding delete_mailbox
delete_mailbox-IsAddressed id s h = elim (Bool-cases (exists (λ m. m.id == id) s.mailboxes.rows)) [
  | inr e ↦ rw e h
  | inl e ↦ rw e (record {
    domains = h.domains;
    mailboxes = λ b m. h.mailboxes b ((In-delete (λ m. m.id == id) s.mailboxes.rows b).0 m).0;
    aliases = h.aliases;
  })
]

pub delete_alias-IsAddressed :
    (id : ℕ) (s : Store) → IsAddressed s → IsAddressed (delete_alias id s).0
unfolding delete_alias
delete_alias-IsAddressed id s h = elim (Bool-cases (exists (λ a. a.id == id) s.aliases.rows)) [
  | inr e ↦ rw e h
  | inl e ↦ rw e (record {
    domains = h.domains;
    mailboxes = h.mailboxes;
    aliases = λ a m. h.aliases a ((In-delete (λ a. a.id == id) s.aliases.rows a).0 m).0;
  })
]
