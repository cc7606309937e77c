-- ===== src/MailApi/Senders/SameAsPostfix.antt =====
-- The webmail's senders and the table of sender logins that Postfix gets are the same.
use wispbox.Base.{
  ◌≢◌, ℕ, Text, Bool, true, false, not, ◌&&◌, Option, [], ok, arith, ◌≡◌, ◌↔◌, ◌⊎◌, inl, inr, refl,
  sym, ◌∙◌, In, In-map, map-In, Any-In, In-Any, same, same_iff, same_refl, to_lower, trim_space,
  IsNormal, lower_of_normal, trim_of_normal, has_prefix, subst, Bool-cases,
}
use wispbox.Base.Rows.{select, In-select, exists, exists-In, find-some, find-In, In-order_by}
use wispbox.Db.Models.{Mailbox, Alias}
use wispbox.Db.Tables.{Store, fresh, nocase}
use wispbox.Db.Mailboxes.{list_mailboxes}
use wispbox.Db.Aliases.{list_aliases, list_alias_sources_for_destination}
use wispbox.Db.Addresses.{IsAddressed, at_sign}
use wispbox.Db.Addresses.Reached.{Reach, Reach-IsAddressed}
use wispbox.Configgen.SenderLogins.{sender_logins, in_mailbox_set}
use wispbox.Configgen.SenderLogins.Grants.{Grants, build_sender_logins-Grants}
use wispbox.MailApi.Senders.{allowed_senders, resolve_from}

nocase_normal :
    (t u : Text) → IsNormal t → IsNormal u → (nocase t (to_lower (trim_space u)) ≡ true) ↔ (t ≡ u)
unfolding nocase
nocase_normal t u n k =
    grind (arith, same_iff t u, lower_of_normal t n, lower_of_normal u k, trim_of_normal u k)

abbrev leads_to : Mailbox → Alias → Bool
leads_to m a = nocase a.destination (to_lower (trim_space m.email)) && a.enabled

-- An alias of the store that may be sent as.
abbrev Lends : Store → Text → Text → Alias → Type 0
Lends s x email a =
    In a s.aliases.rows
    × (a.enabled ≡ true)
    × (a.is_catch_all ≡ false)
    × (a.source ≡ x)
    × (a.destination ≡ email)

In-list_aliases : (s : Store) (a : Alias) → In a (list_aliases 0 s) ↔ In a s.aliases.rows
unfolding list_aliases
In-list_aliases s a = In-order_by (λ a. to_lower a.source) s.aliases.rows a

In-list_mailboxes : (s : Store) (m : Mailbox) → In m (list_mailboxes 0 s) ↔ In m s.mailboxes.rows
unfolding list_mailboxes
In-list_mailboxes s m = In-order_by (λ m. to_lower m.email) s.mailboxes.rows m

module _ (s : Store) (h : IsAddressed s) (b : Mailbox) (stored : In b s.mailboxes.rows)
    (on : b.enabled ≡ true) where
  email-IsNormal : IsNormal b.email
  email-IsNormal = h.mailboxes b stored

  allowed_senders-Lends :
      (x : Text) → In x (allowed_senders b s) → (b.email ≡ x) ⊎ ((a : Alias) × Lends s x b.email a)
  unfolding allowed_senders list_alias_sources_for_destination
  allowed_senders-Lends x (inl e) = inl (sym e)
  allowed_senders-Lends x (inr m) =
      let (k, unmarked) =
        (In-select (λ t. not (has_prefix t at_sign)) (list_alias_sources_for_destination b.email s)
            x).0
          m in
      let (a, q, e) = map-In (λ a. a.source) (select (leads_to b) s.aliases.rows) x k in
      let (ma, t) = (In-select (leads_to b) s.aliases.rows a).0 q in
      inr (
        a,
        (
          ma,
          ground arith,
          ground (arith, (h.aliases a ma).marked),
          sym e,
          (nocase_normal a.destination b.email (h.aliases a ma).normal email-IsNormal).0
              (ground arith),
        ),
      )

  Lends-allowed_senders : (x : Text) (a : Alias) → Lends s x b.email a → In x (allowed_senders b s)
  unfolding allowed_senders list_alias_sources_for_destination
  Lends-allowed_senders x a (m, on', c, e, d) =
      let q = (nocase_normal a.destination b.email (h.aliases a m).normal email-IsNormal).1 d in
      let k =
        In-map (λ a. a.source) (select (leads_to b) s.aliases.rows) a
          ((In-select (leads_to b) s.aliases.rows a).1 (m, ground arith)) in
      inr (
        (In-select (λ t. not (has_prefix t at_sign)) (list_alias_sources_for_destination b.email s)
            x).1
          (
            subst (λ t. In t (list_alias_sources_for_destination b.email s)) e k,
            ground (arith, (h.aliases a m).marked),
          ))

  Grants-Lends :
      (x : Text)
      → Grants x b.email (sender_logins s)
      → (b.email ≡ x) ⊎ ((a : Alias) × Lends s x b.email a)
  unfolding sender_logins
  Grants-Lends x g =
      elim ((build_sender_logins-Grants x b.email (list_mailboxes 0 s) (list_aliases 0 s)).0 g) [
        | inl own ↦ let (m, _, (_, e, q)) = Any-In _ (list_mailboxes 0 s) own in inl (sym q ∙ e)
        | inr lent ↦
            let (a, m, (on', c, e, d, _)) = Any-In _ (list_aliases 0 s) lent in
            inr (a, ((In-list_aliases s a).0 m, on', c, e, d))
      ]

  own-Grants : Grants b.email b.email (sender_logins s)
  unfolding sender_logins
  own-Grants =
      (build_sender_logins-Grants b.email b.email (list_mailboxes 0 s) (list_aliases 0 s)).1
        (inl (In-Any _ (list_mailboxes 0 s) b ((In-list_mailboxes s b).1 stored) (on, refl, refl)))

  Lends-Grants : (x : Text) (a : Alias) → Lends s x b.email a → Grants x b.email (sender_logins s)
  unfolding sender_logins in_mailbox_set
  Lends-Grants x a (m, on', c, e, d) =
      let set : in_mailbox_set (list_mailboxes 0 s) a.destination ≡ true =
        exists-In (λ m. m.enabled && same m.email a.destination) (list_mailboxes 0 s) b
          ((In-list_mailboxes s b).1 stored) (ground (arith, same_iff b.email a.destination, d)) in
      (build_sender_logins-Grants x b.email (list_mailboxes 0 s) (list_aliases 0 s)).1
        (inr (In-Any _ (list_aliases 0 s) a ((In-list_aliases s a).1 m) (on', c, e, d, set)))

resolve_from-In :
    (b : Mailbox) (text : Text) (s : Store) (x : Text)
    → resolve_from b text s ≡ ok x
    → In x (allowed_senders b s)
unfolding resolve_from allowed_senders
resolve_from-In b text s x h =
    let requested = to_lower (trim_space text) in
    elim (Bool-cases (same requested [])) [
      | inl e ↦ inl (ground arith)
      | inr e ↦ elim (Bool-cases (exists (same requested) (allowed_senders b s))) [
        | inr k ↦ ground arith
        | inl k ↦
            let (y, q) = find-some (same requested) (allowed_senders b s) k in
            let (my, hy) = find-In (same requested) (allowed_senders b s) q in
            let same_text : requested ≡ x = ground arith in
            subst (λ t. In t (allowed_senders b s)) (sym ((same_iff requested y).0 hy) ∙ same_text)
              my
      ]
    ]

module _ (parse_address : Text → Option Text) where
  -- In every store that the operations on domains, mailboxes and aliases reach from the migrated
  -- database, the addresses that the webmail lets an enabled mailbox send as are exactly the senders for
  -- which the table rendered for Postfix names the mailbox as an owner.
  pub allowed_senders-sender_logins :
      (now : ℕ) {s : Store}
      → Reach parse_address (fresh now) s
      → (b : Mailbox) → In b s.mailboxes.rows
      → b.enabled ≡ true
      → (x : Text) → In x (allowed_senders b s) ↔ Grants x b.email (sender_logins s)
  unfolding allowed_senders
  allowed_senders-sender_logins now {s} r b m on x =
      let h = Reach-IsAddressed parse_address now r in
      (
        λ k. elim (allowed_senders-Lends s h b m on x k) [
          | inl e ↦ subst (λ t. Grants t b.email (sender_logins s)) e (own-Grants s h b m on)
          | inr (a, l) ↦ Lends-Grants s h b m on x a l
        ],
        λ g. elim (Grants-Lends s h b m on x g) [
          | inl e ↦ inl (sym e)
          | inr (a, l) ↦ Lends-allowed_senders s h b m on x a l
        ],
      )

  -- In every store that the operations on domains, mailboxes and aliases reach from the migrated
  -- database, an address that the webmail takes for the From of an enabled mailbox, whatever was asked
  -- for, is one for which Postfix's table names the mailbox as an owner.
  pub resolve_from-Grants :
      (now : ℕ) {s : Store}
      → Reach parse_address (fresh now) s
      → (b : Mailbox) → In b s.mailboxes.rows
      → b.enabled ≡ true
      → (text x : Text) → resolve_from b text s ≡ ok x
      → Grants x b.email (sender_logins s)
  unfolding resolve_from
  resolve_from-Grants now {s} r b m on text x h =
      (allowed_senders-sender_logins now r b m on x).0 (resolve_from-In b text s x h)

  -- In every store that the operations on domains, mailboxes and aliases reach from the migrated
  -- database, a sender that is not empty, trimmed and in lower case, and for which Postfix's table names
  -- the enabled mailbox as an owner, is taken for the From as it stands.
  pub Grants-resolve_from :
      (now : ℕ) {s : Store}
      → Reach parse_address (fresh now) s
      → (b : Mailbox) → In b s.mailboxes.rows
      → b.enabled ≡ true
      → (x : Text) → x ≢ []
      → IsNormal x
      → Grants x b.email (sender_logins s)
      → resolve_from b x s ≡ ok x
  unfolding resolve_from
  Grants-resolve_from now {s} r b m on x e n g =
      let listed : exists (same x) (allowed_senders b s) ≡ true =
        exists-In (same x) (allowed_senders b s) x
          ((allowed_senders-sender_logins now r b m on x).1 g) (same_refl x) in
      rw n (ground (arith, same_iff x []))
