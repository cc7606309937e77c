-- ===== src/Configgen/SenderLogins/Grants.antt =====
-- What the table of sender logins grants, and to whom.
use wispbox.Base.{
  Any, Any-In, In-Any, Text, true, false, not, ◌||◌, List, [], ◌∷◌, ◌++◌, same, same_iff, arith,
  ◌≡◌, ◌↔◌, ◌⊎◌, inl, inr, In, Bool-cases,
}
use wispbox.Base.Rows.{order_by, In-order_by}
use wispbox.Db.Models.{Mailbox, Alias}
use wispbox.Configgen.SenderLogins.{
  SenderLogin, append_owner, in_mailbox_set, own_addresses, alias_addresses, build_sender_logins,
}

-- An entry for the sender names the owner.
abbrev pub Grants : Text → Text → List SenderLogin → Type 0
Grants sender owner = Any (λ l. (l.sender ≡ sender) × In owner l.owners)

-- An enabled mailbox that has both as its address.
abbrev pub OwnAddress : Text → Text → List Mailbox → Type 0
OwnAddress sender owner = Any (λ m. (m.enabled ≡ true) × (m.email ≡ sender) × (m.email ≡ owner))

-- An enabled alias from the sender to the owner, one of the mailboxes; catch-alls do not count.
abbrev pub AliasAddress : List Mailbox → Text → Text → List Alias → Type 0
AliasAddress ms sender owner = Any λ a.
    (a.enabled ≡ true)
    × (a.is_catch_all ≡ false)
    × (a.source ≡ sender)
    × (a.destination ≡ owner)
    × (in_mailbox_set ms a.destination ≡ true)

In-append_one_iff :
    (o : Text) (xs : List Text) (y : Text) → In o (xs ++ y ∷ []) ↔ (In o xs ⊎ (y ≡ o))
In-append_one_iff o [] y = grind arith
In-append_one_iff o (x ∷ xs) y = grind (arith, In-append_one_iff o xs y)

Any-order_by :
    {A : Type 0} (P : A → Type 0) (key : A → Text) (xs : List A)
    → Any P (order_by key xs) ↔ Any P xs
Any-order_by P key xs = (there, back)
  where
    there : Any P (order_by key xs) → Any P xs
    there h =
        let (a, m, p) = Any-In P (order_by key xs) h in In-Any P xs a ((In-order_by key xs a).0 m) p

    back : Any P xs → Any P (order_by key xs)
    back h =
        let (a, m, p) = Any-In P xs h in In-Any P (order_by key xs) a ((In-order_by key xs a).1 m) p

module _ (x o : Text) where
  append_owner-Grants :
      (key owner : Text) (ls : List SenderLogin)
      → Grants x o (append_owner key owner ls) ↔ (((key ≡ x) × (owner ≡ o)) ⊎ Grants x o ls)
  unfolding append_owner
  append_owner-Grants key owner [] = grind arith
  append_owner-Grants key owner (l ∷ ls) = elim (Bool-cases (same l.sender key)) [
    | inl e ↦ rw e (grind (arith, same_iff l.sender key, In-append_one_iff o l.owners owner))
    | inr e ↦ rw e (grind (arith, append_owner-Grants key owner ls))
  ]

  own_addresses-Grants :
      (ms : List Mailbox) (ls : List SenderLogin)
      → Grants x o (own_addresses ms ls) ↔ (OwnAddress x o ms ⊎ Grants x o ls)
  unfolding own_addresses
  own_addresses-Grants [] ls = grind arith
  own_addresses-Grants (m ∷ ms) ls = elim (Bool-cases m.enabled) [
    | inl e ↦ rw e (
        grind (
          arith,
          own_addresses-Grants ms (append_owner m.email m.email ls),
          append_owner-Grants m.email m.email ls,
        ))
    | inr e ↦ rw e (grind (arith, own_addresses-Grants ms ls))
  ]

  alias_addresses-Grants :
      (ms : List Mailbox) (aliases : List Alias) (ls : List SenderLogin)
      → Grants x o (alias_addresses ms aliases ls) ↔ (AliasAddress ms x o aliases ⊎ Grants x o ls)
  unfolding alias_addresses
  alias_addresses-Grants ms [] ls = grind arith
  alias_addresses-Grants ms (a ∷ aliases) ls = elim (Bool-cases (not a.enabled || a.is_catch_all)) [
    | inl e ↦ rw e (grind (arith, alias_addresses-Grants ms aliases ls))
    | inr e ↦ rw e (elim (Bool-cases (in_mailbox_set ms a.destination)) [
      | inl k ↦ rw k (
          grind (
            arith,
            alias_addresses-Grants ms aliases (append_owner a.source a.destination ls),
            append_owner-Grants a.source a.destination ls,
          ))
      | inr k ↦ rw k (grind (arith, alias_addresses-Grants ms aliases ls))
    ])
  ]

  -- The table of sender logins lets the login `o` use the sender `x` exactly if an enabled mailbox has
  -- both as its address, or an enabled alias that is no catch-all leads from `x` to `o` and an enabled
  -- mailbox has the address `o`.
  pub build_sender_logins-Grants :
      (ms : List Mailbox) (aliases : List Alias)
      → Grants x o (build_sender_logins ms aliases)
        ↔ (OwnAddress x o ms ⊎ AliasAddress ms x o aliases)
  unfolding build_sender_logins
  build_sender_logins-Grants ms aliases =
      let own = own_addresses ms [] in
      let all = alias_addresses ms aliases own in
      let sorted =
        Any-order_by (λ l. (l.sender ≡ x) × In o l.owners) (λ (l : SenderLogin). l.sender) all in
      ground (arith, sorted, own_addresses-Grants ms [], alias_addresses-Grants ms aliases own)
