-- ===== src/Db/Addresses.antt =====
-- What the tables of domains, mailboxes and aliases always satisfy.
pub mod OnRows
pub mod OnMailboxes
mod Sources
pub mod Reached
use wispbox.Base.{
  ℕ, Text, List, ◌≡◌, ◌≢◌, In, IsNormal, has_prefix, codes, Bool-cases, inl, inr, ◌++◌, ◌∷◌, [],
  In-append_split, subst, sym, ◌∙◌, to_lower, trim_space, IsNormal-normalised, if◌then◌else◌, same,
  trim_of_normal,
}
use wispbox.Base.Outcome.{checked_inv}
use wispbox.Base.Rows.{exists}
use wispbox.Db.Validate.{validate_domain_name, validate_hostname, default_mail_hostname}
use wispbox.Db.Validate.Accepted.{domain_ne_nil}
use wispbox.Db.Models.{Domain, Mailbox, Alias}
use wispbox.Db.Tables.{Store}
use wispbox.Db.Domains.{create_domain, insert_domain, clashes_domain}

pub record IsNamed (d : Domain) : Type 0 where
  pub normal : IsNormal d.name
  pub named : d.name ≢ []

abbrev pub at_sign : Text
at_sign = codes "@"

-- The mark of a catch-all is what the source begins with.
pub record IsRouted (a : Alias) : Type 0 where
  pub normal : IsNormal a.destination
  pub marked : has_prefix a.source at_sign ≡ a.is_catch_all

pub record IsAddressed (s : Store) : Type 0 where
  pub domains : (d : Domain) → In d s.domains.rows → IsNamed d
  pub mailboxes : (m : Mailbox) → In m s.mailboxes.rows → IsNormal m.email
  pub aliases : (a : Alias) → In a s.aliases.rows → IsRouted a

-- A row added at the end meets what all rows meet, if it does.
pub In-append_one :
    {A : Type 0} (P : A → Type 0) (xs : List A) (x : A)
    → ((a : A) → In a xs → P a)
    → P x
    → (a : A) → In a (xs ++ x ∷ [])
    → P a
In-append_one P xs x all px a m = elim (In-append_split a xs (x ∷ []) m) [
  | inl old ↦ all a old
  | inr (inl e) ↦ subst P (sym e) px
  | inr (inr n) ↦ absurd n
]

pub insert_domain-IsAddressed :
    (now : ℕ) (name hostname : Text) (s : Store)
    → IsNormal name
    → name ≢ []
    → IsAddressed s
    → IsAddressed (insert_domain now name hostname s).0
unfolding insert_domain
insert_domain-IsAddressed now name hostname s n e h =
    elim (Bool-cases (exists (clashes_domain name hostname) s.domains.rows)) [
      | inl k ↦ rw k h
      | inr k ↦ rw k (record {
        domains =
            In-append_one IsNamed s.domains.rows _ h.domains (record { normal = n; named = e });
        mailboxes = h.mailboxes;
        aliases = h.aliases;
      })
    ]

pub create_domain-IsAddressed :
    (now : ℕ) (text mail_hostname : Text) (s : Store)
    → IsAddressed s
    → IsAddressed (create_domain now text mail_hostname s).0
unfolding create_domain
create_domain-IsAddressed now text mail_hostname s h =
    checked_inv IsAddressed (validate_domain_name name) s _ h λ _ v.
      checked_inv IsAddressed (validate_hostname hostname) s _ h λ _ w.
        insert_domain-IsAddressed now name hostname s n
          (λ e. domain_ne_nil name v (trim_of_normal name n ∙ e)) h
  where
    name : Text
    name = to_lower (trim_space text)

    hostname : Text
    hostname =
        to_lower
          (trim_space (if same mail_hostname [] then default_mail_hostname name else mail_hostname))

    n : IsNormal name
    n = IsNormal-normalised text
