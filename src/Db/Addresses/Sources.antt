-- ===== src/Db/Addresses/Sources.antt =====
-- The sources that create_alias stores.
use wispbox.Base.{
  ap, ◌∙◌, ℕ, Text, Bool, true, false, ◌∷◌, [], ok, Option, none, some, ◌≡◌, ◌≢◌, refl, arith,
  IsNormal, has_prefix, cut, any_byte, ◌==◌, Bool-cases, inl, inr, same, to_lower, trim_space,
  IsNormal-normalised,
}
use wispbox.Base.Outcome.{checked_inv, Result-cases}
use wispbox.Base.Rows.{exists}
use wispbox.Db.Tables.{Store}
use wispbox.Db.Domains.{get_domain}
use wispbox.Db.Mailboxes.{address}
use wispbox.Db.Validate.{validate_local_part, validate_email}
use wispbox.Db.Validate.Accepted.{local_part_ne_nil}
use wispbox.Db.Aliases.{create_alias, insert_alias, alias_source, split_source, clashes_alias}
use wispbox.Db.Addresses.{IsAddressed, IsRouted, at_sign, In-append_one}

-- Neither a text without `@` nor what stands before the first one has an `@`.
cut-bare :
    (t : Text)
    → any_byte (λ c. c == b'@') (elim (cut t b'@') [ none ↦ t | some parts ↦ parts.0 ]) ≡ false
unfolding cut any_byte
cut-bare [] = refl
cut-bare (c ∷ t) = ground (arith, cut-bare t)

split_source-bare : (t domain : Text) → any_byte (λ c. c == b'@') (split_source t domain).0 ≡ false
unfolding split_source
split_source-bare t domain = ground (arith, cut-bare t)

at_sign_address :
    (a domain : Text)
    → any_byte (λ c. c == b'@') a ≡ false
    → a ≢ []
    → has_prefix (address a domain) at_sign ≡ false
unfolding any_byte has_prefix
at_sign_address [] domain h e = absurd (e refl)
at_sign_address (c ∷ a) domain h e = ground arith

alias_source-marked :
    (source domain : Text) (is_catch_all : Bool) (src : Text)
    → alias_source source domain is_catch_all ≡ ok src
    → has_prefix src at_sign ≡ is_catch_all
unfolding alias_source has_prefix trim_space
alias_source-marked source domain true src h = ground arith
alias_source-marked source domain false src h =
    let lp = (split_source (to_lower (trim_space source)) domain).0 in
    elim (Result-cases (validate_local_part lp)) [
      | inl (_, v) ↦
          let k =
            at_sign_address lp domain (split_source-bare (to_lower (trim_space source)) domain)
              (λ e. local_part_ne_nil lp v (ap trim_space e)) in
          let q : src ≡ address lp domain = ground arith in ap (λ t. has_prefix t at_sign) q ∙ k
      | inr (e, v) ↦ ground arith
    ]

insert_alias-IsAddressed :
    (now domain_id : ℕ) (source destination : Text) (is_catch_all : Bool) (s : Store)
    → IsNormal destination
    → has_prefix source at_sign ≡ is_catch_all
    → IsAddressed s
    → IsAddressed (insert_alias now domain_id source destination is_catch_all s).0
unfolding insert_alias
insert_alias-IsAddressed now domain_id source destination is_catch_all s n k h =
    elim (Bool-cases (exists (clashes_alias source destination) s.aliases.rows)) [
      | inl e ↦ rw e h
      | inr e ↦ rw e (record {
        domains = h.domains;
        mailboxes = h.mailboxes;
        aliases =
            In-append_one IsRouted s.aliases.rows _ h.aliases (record { normal = n; marked = k });
      })
    ]

module _ (parse_address : Text → Option Text) where
  pub create_alias-IsAddressed :
      (now domain_id : ℕ) (source destination : Text) (is_catch_all : Bool) (s : Store)
      → IsAddressed s
      → IsAddressed (create_alias parse_address now domain_id source destination is_catch_all s).0
  unfolding create_alias
  create_alias-IsAddressed now domain_id source destination is_catch_all s h =
      let dest = to_lower (trim_space destination) in
      checked_inv IsAddressed (get_domain domain_id s) s _ h λ dom _.
        checked_inv IsAddressed (validate_email parse_address dest) s _ h λ _ _.
          checked_inv IsAddressed (alias_source source dom.name is_catch_all) s _ h λ src e.
            elim (Bool-cases (same src dest)) [
              | inl q ↦ rw q h
              | inr q ↦ rw q (
                  insert_alias-IsAddressed now domain_id src dest is_catch_all s
                    (IsNormal-normalised destination)
                    (alias_source-marked source dom.name is_catch_all src e) h)
            ]
