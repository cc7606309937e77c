-- ===== src/Db/Addresses/OnMailboxes.antt =====
-- Creating a mailbox keeps what the tables satisfy.
use wispbox.Base.{
  ℕ, Text, ok, ℤ, ◌≡◌, refl, arith, IsNormal, Bool-cases, inl, inr, ◌==◌, ◌∙◌, to_lower, trim_space,
  IsNormal-normalised, lower, at_least_zero, trim_of_normal, IsNormal-join,
}
use wispbox.Base.Outcome.{checked_inv}
use wispbox.Base.Rows.{exists, find-In}
use wispbox.Db.Validate.{validate_local_part}
use wispbox.Db.Validate.Accepted.{local_part_ne_nil}
use wispbox.Db.Models.{Domain}
use wispbox.Db.Tables.{Store}
use wispbox.Db.Domains.{get_domain}
use wispbox.Db.Mailboxes.{create_mailbox, insert_mailbox, address, clashes_mailbox}
use wispbox.Db.Addresses.{IsNamed, IsAddressed, In-append_one}

pub insert_mailbox-IsAddressed :
    (now domain_id : ℕ) (local_part email password_hash : Text) (quota_mb : ℤ) (s : Store)
    → IsNormal email
    → IsAddressed s
    → IsAddressed (insert_mailbox now domain_id local_part email password_hash quota_mb s).0
unfolding insert_mailbox
insert_mailbox-IsAddressed now domain_id local_part email password_hash quota_mb s n h =
    elim (Bool-cases (exists (clashes_mailbox domain_id local_part email) s.mailboxes.rows)) [
      | inl k ↦ rw k h
      | inr k ↦ rw k (record {
        domains = h.domains;
        mailboxes = In-append_one (λ m. IsNormal m.email) s.mailboxes.rows _ h.mailboxes n;
        aliases = h.aliases;
      })
    ]

pub get_domain-IsNamed :
    (id : ℕ) (s : Store) (d : Domain) → IsAddressed s → get_domain id s ≡ ok d → IsNamed d
unfolding get_domain
get_domain-IsNamed id s d h e =
    h.domains d (ground (arith, find-In (λ (d : Domain). d.id == id) s.domains.rows {x = d}))

pub create_mailbox-IsAddressed :
    (now domain_id : ℕ) (text password_hash : Text) (quota_mb : ℤ) (s : Store)
    → IsAddressed s
    → IsAddressed (create_mailbox now domain_id text password_hash quota_mb s).0
unfolding create_mailbox
create_mailbox-IsAddressed now domain_id text password_hash quota_mb s h =
    checked_inv IsAddressed (validate_local_part lp) s _ h λ _ v.
      checked_inv IsAddressed (get_domain domain_id s) s _ h λ dom g.
        let d = get_domain-IsNamed domain_id s dom h g in
        insert_mailbox-IsAddressed now domain_id lp (address lp dom.name) password_hash
          (at_least_zero quota_mb) s
          (IsNormal-join lp b'@' dom.name n d.normal at_lower
            (λ e. local_part_ne_nil lp v (trim_of_normal lp n ∙ e)) d.named)
          h
  where
    lp : Text
    lp = to_lower (trim_space text)

    n : IsNormal lp
    n = IsNormal-normalised text

    at_lower : lower b'@' ≡ b'@'
    at_lower = unfold lower in refl
