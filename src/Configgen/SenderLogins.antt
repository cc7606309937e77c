-- ===== src/Configgen/SenderLogins.antt =====
-- internal/configgen/data.go, buildSenderLogins: which logins may use which envelope sender. A Go map is
-- the list of its entries, each key once.
pub mod Grants
use wispbox.Base.{Text, Bool, not, ◌&&◌, ◌||◌, List, [], ◌∷◌, ◌++◌, if◌then◌else◌, same}
use wispbox.Base.Rows.{exists, order_by}
use wispbox.Db.Models.{Mailbox, Alias}
use wispbox.Db.Tables.{Store}
use wispbox.Db.Mailboxes.{list_mailboxes}
use wispbox.Db.Aliases.{list_aliases}

pub record SenderLogin : Type 0 where
  pub sender : Text
  pub owners : List Text

-- owners[key] = append(owners[key], owner)
unfoldable pub append_owner : Text → Text → List SenderLogin → List SenderLogin
unfolding same
append_owner key owner [] = record { sender = key; owners = owner ∷ [] } ∷ []
append_owner key owner (l ∷ ls) =
    let rest = append_owner key owner ls in
    if same l.sender key then record l { owners = l.owners ++ owner ∷ [] } ∷ ls else l ∷ rest

-- mailboxSet[address]
unfoldable pub in_mailbox_set : List Mailbox → Text → Bool
unfolding exists same
in_mailbox_set ms address = exists (λ m. m.enabled && same m.email address) ms

unfoldable pub own_addresses : List Mailbox → List SenderLogin → List SenderLogin
unfolding append_owner
own_addresses [] owners = owners
own_addresses (m ∷ ms) owners =
    own_addresses ms (if m.enabled then append_owner m.email m.email owners else owners)

unfoldable pub alias_addresses : List Mailbox → List Alias → List SenderLogin → List SenderLogin
unfolding append_owner in_mailbox_set
alias_addresses ms [] owners = owners
alias_addresses ms (a ∷ aliases) owners = alias_addresses ms aliases (
    if not a.enabled || a.is_catch_all
    then owners
    else if in_mailbox_set ms a.destination
    then append_owner a.source a.destination owners
    else owners)

unfoldable pub build_sender_logins : List Mailbox → List Alias → List SenderLogin
unfolding order_by own_addresses alias_addresses
build_sender_logins ms aliases =
    order_by (λ l. l.sender) (alias_addresses ms aliases (own_addresses ms []))

-- What Build does with the store's mailboxes and aliases.
unfoldable pub sender_logins : Store → List SenderLogin
unfolding build_sender_logins list_mailboxes list_aliases
sender_logins s = build_sender_logins (list_mailboxes 0 s) (list_aliases 0 s)
