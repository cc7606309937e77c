-- ===== src/Imapclient.antt =====
-- internal/imapclient: the mailbox behind the webmail, less its adapter that speaks IMAP. A date counts the
-- nanoseconds from Go's zero time, which is 0; a length that Go puts into 64 bits is a natural number.
pub mod Parse
pub mod Mock
pub mod Tests
use wispbox.Base.{
  ℕ, Text, codes, Bool, false, List, [], ◌∷◌, ltb, ◌==◌, if◌then◌else◌, ◌||◌, same, ℤ, pos, negsuc,
}

pub data Role : Type 0 where
  inbox sent drafts trash junk custom : Role

pub record Folder : Type 0 where
  pub name : Text
  pub role : Role
  pub total : ℕ
  pub unseen : ℕ

pub record Address : Type 0 where
  pub name : Text
  pub email : Text

pub record Header : Type 0 where
  pub uid : ℕ
  pub folder : Text
  pub sender : List Address
  pub to : List Address
  pub subject : Text
  pub date : ℕ
  pub seen : Bool
  pub answered : Bool
  pub flagged : Bool
  pub has_attachments : Bool
  pub size : ℕ

pub record AttachmentMeta : Type 0 where
  pub index : ℕ
  pub filename : Text
  pub mime_type : Text
  pub size : ℕ
  pub content_id : Text

pub record Message : Type 0 where
  pub header : Header
  pub cc : List Address
  pub reply_to : List Address
  pub message_id : Text
  pub in_reply_to : Text
  pub text_body : Text
  pub html_body : Text
  pub attachments : List AttachmentMeta

pub record AttachmentContent : Type 0 where
  pub filename : Text
  pub mime_type : Text
  pub content : Text

pub record Page : Type 0 where
  pub messages : List Header
  pub total : ℕ
  pub next_cursor : Text

-- What an operation on a mailbox fails with; `unreadable` carries the reader's message.
pub data MailError : Type 0 where
  no_folder : Text → MailError
  no_message : Text → ℕ → MailError
  no_attachment : ℤ → MailError
  unreadable : Text → MailError

unfoldable pub clamp_limit : ℤ → ℕ
clamp_limit (negsuc n) = 50
clamp_limit (pos n) = if n == 0 || ltb 100 n then 50 else n

abbrev among : Text → List Text → Bool
among s [] = false
among s (t ∷ ts) = same s t || among s ts

unfoldable pub role_for_folder_name : Text → Role
unfolding same
role_for_folder_name name =
    if among name (codes "INBOX" ∷ codes "Inbox" ∷ codes "inbox" ∷ [])
    then inbox
    else if among name (codes "Sent" ∷ codes "Sent Messages" ∷ codes "Sent Items" ∷ [])
    then sent
    else if same name (codes "Drafts")
    then drafts
    else if among name (codes "Trash" ∷ codes "Deleted Messages" ∷ [])
    then trash
    else if among name (codes "Junk" ∷ codes "Spam" ∷ [])
    then junk
    else custom
