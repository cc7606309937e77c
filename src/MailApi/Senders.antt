-- ===== src/MailApi/Senders.antt =====
-- internal/mailapi/send.go, the addresses that a mailbox may send as. The Go map is the list of its keys.
pub mod SameAsPostfix
use wispbox.Base.{
  Text, codes, not, List, [], ◌∷◌, Result, ok, err, if◌then◌else◌, same, to_lower, trim_space,
  has_prefix,
}
use wispbox.Base.Rows.{select, exists}
use wispbox.Db.Models.{Mailbox}
use wispbox.Db.Tables.{Store}
use wispbox.Db.Aliases.{list_alias_sources_for_destination}

unfoldable pub allowed_senders : Mailbox → Store → List Text
unfolding select has_prefix list_alias_sources_for_destination
allowed_senders b s =
    b.email
    ∷ select (λ t. not (has_prefix t (codes "@"))) (list_alias_sources_for_destination b.email s)

pub data SenderError : Type 0 where
  not_your_sender : SenderError

unfoldable pub resolve_from : Mailbox → Text → Store → Result SenderError Text
resolve_from b text s =
    let requested = to_lower (trim_space text) in
    if same requested []
    then ok b.email
    else if exists (same requested) (allowed_senders b s)
    then ok requested
    else err not_your_sender
