-- ===== src/Imapclient/Mock.antt =====
-- internal/imapclient/mock.go: the mailbox of one user in development. `parse` is ParseMessage. The folders
-- are a map with the order in which they were made; a message that a slice points to is in one folder.
pub mod Pages
pub mod Numbered
pub mod Uids
pub mod Moving
pub mod Paging
use wispbox.Base.{
  ℕ, ◌+◌, ◌%◌, not, ◌^◌, Text, codes, Bool, List, [], ◌∷◌, ◌++◌, Option, none, some, Result, ok,
  err, length, drop, ◌==◌, if◌then◌else◌, ℤ, pos, negsuc,
}
use wispbox.Base.Assoc.{get, put}
use wispbox.Base.Rows.{count}
use wispbox.Imapclient.{
  Role, Folder, Message, AttachmentContent, MailError, no_folder, no_message, no_attachment,
  unreadable, role_for_folder_name,
}

pub record MockMessage : Type 0 where
  pub msg : Message
  pub raw : Option Text
  pub att_data : List Text

pub record MockFolder : Type 0 where
  pub role : Role
  pub messages : List MockMessage

pub record MockMailbox : Type 0 where
  pub order : List Text
  pub folders : List (Text × MockFolder)
  pub next_uid : ℕ

abbrev pub uid_of : MockMessage → ℕ
uid_of mm = mm.msg.header.uid

-- mb.nextUID++ on a uint32
abbrev pub after_uid : ℕ → ℕ
after_uid n = (n + 1) % 2 ^ 32

unfoldable pub folder_locked : MockMailbox → Text → Result MailError MockFolder
unfolding get
folder_locked mb name = elim (get name mb.folders) [ none ↦ err (no_folder name) | some f ↦ ok f ]

-- The messages before the first one with the uid, that message, and those after it.
unfoldable pub split_at_uid :
    ℕ → List MockMessage → Option (List MockMessage × MockMessage × List MockMessage)
split_at_uid uid [] = none
split_at_uid uid (mm ∷ ms) =
    if uid_of mm == uid then some ([], mm, ms) else elim (split_at_uid uid ms) [
      | none ↦ none
      | some (before, found, after) ↦ some (mm ∷ before, found, after)
    ]

unfoldable pub find_locked :
    MockMailbox
    → Text
    → ℕ
    → Result MailError (MockFolder × List MockMessage × MockMessage × List MockMessage)
unfolding folder_locked split_at_uid
find_locked mb folder uid = elim (folder_locked mb folder) [
  | err e ↦ err e
  | ok f ↦ elim (split_at_uid uid f.messages) [
    | none ↦ err (no_message folder uid)
    | some (before, mm, after) ↦ ok (f, before, mm, after)
  ]
]

abbrev pub with_messages : MockFolder → List MockMessage → MockFolder
with_messages f ms = record { role = f.role; messages = ms }

-- msg.UID and msg.Folder are set when a message enters a folder.
abbrev pub entering : ℕ → Text → MockMessage → MockMessage
entering uid folder mm = record mm {
  msg = record mm.msg { header = record mm.msg.header { uid = uid; folder = folder } };
}

-- `add`; the folder is made where it is missing.
unfoldable pub add : Text → MockMessage → MockMailbox → MockMailbox
unfolding get put role_for_folder_name
add folder mm mb =
    let uid = after_uid mb.next_uid in
    elim (get folder mb.folders) [
      | none ↦ record {
        order = mb.order ++ folder ∷ [];
        folders =
            put folder
              (record {
                role = role_for_folder_name folder;
                messages = entering uid folder mm ∷ [];
              })
              mb.folders;
        next_uid = uid;
      }
      | some f ↦ record mb {
        folders =
            put folder (with_messages f (f.messages ++ entering uid folder mm ∷ [])) mb.folders;
        next_uid = uid;
      }
    ]

-- Every name of the order has a folder.
unfoldable pub folders_from : List Text → MockMailbox → List Folder
unfolding get count
folders_from [] mb = []
folders_from (name ∷ names) mb =
    let rest = folders_from names mb in
    elim (get name mb.folders) [
      | none ↦ rest
      | some f ↦
          record {
            name = name;
            role = f.role;
            total = length f.messages % 2 ^ 32;
            unseen = count (λ mm. not mm.msg.header.seen) f.messages % 2 ^ 32;
          }
          ∷ rest
    ]

unfoldable pub list_folders : MockMailbox → List Folder
unfolding folders_from
list_folders mb = folders_from mb.order mb

unfoldable pub get_message : Text → ℕ → MockMailbox → Result MailError Message
unfolding find_locked
get_message folder uid mb = elim (find_locked mb folder uid) [
  | err e ↦ err e
  | ok (f, before, mm, after) ↦ ok mm.msg
]

-- xs[i], for an index that is a Go int
abbrev pub nth {ℓ} : {A : Type ℓ} → ℤ → List A → Option A
nth (negsuc n) xs = none
nth (pos n) xs = elim (drop n xs) [ [] ↦ none | x ∷ _ ↦ some x ]

-- `extract` is ExtractAttachment, for a message that has its raw text.
unfoldable pub attachment :
    (Text → ℤ → Result MailError AttachmentContent)
    → Text
    → ℕ
    → ℤ
    → MockMailbox
    → Result MailError AttachmentContent
unfolding find_locked
attachment extract folder uid index mb = elim (find_locked mb folder uid) [
  | err e ↦ err e
  | ok (f, before, mm, after) ↦ elim mm.raw [
    | some raw ↦ extract raw index
    | none ↦ elim (nth index mm.msg.attachments) [
      | none ↦ err (no_attachment index)
      | some meta ↦ elim (nth index mm.att_data) [
        | none ↦ err (no_attachment index)
        | some content ↦
            ok (record { filename = meta.filename; mime_type = meta.mime_type; content = content })
      ]
    ]
  ]
]

unfoldable pub messages_in : Text → List (Text × MockFolder) → List MockMessage
unfolding get
messages_in name folders = elim (get name folders) [ none ↦ [] | some f ↦ f.messages ]

-- The destination is looked up before the message leaves its folder, and may be that folder.
unfoldable pub move : Text → ℕ → Text → MockMailbox → MockMailbox × Result MailError (Unit {0})
unfolding find_locked folder_locked messages_in put
move folder uid dest mb = elim (find_locked mb folder uid) [
  | err e ↦ (mb, err e)
  | ok (f, before, mm, after) ↦ elim (folder_locked mb dest) [
    | err e ↦ (mb, err e)
    | ok df ↦
        let left = put folder (with_messages f (before ++ after)) mb.folders in
        let kept = messages_in dest left in
        let uid' = after_uid mb.next_uid in
        (
          record mb {
            folders = put dest (with_messages df (kept ++ entering uid' dest mm ∷ [])) left;
            next_uid = uid';
          },
          ok tt,
        )
  ]
]

unfoldable pub delete_mail : Text → ℕ → MockMailbox → MockMailbox × Result MailError (Unit {0})
unfolding find_locked put
delete_mail folder uid mb = elim (find_locked mb folder uid) [
  | err e ↦ (mb, err e)
  | ok (f, before, mm, after) ↦
      (record mb { folders = put folder (with_messages f (before ++ after)) mb.folders }, ok tt)
]

abbrev pub with_seen : Bool → MockMessage → MockMessage
with_seen seen mm = record mm {
  msg = record mm.msg { header = record mm.msg.header { seen = seen } };
}

unfoldable pub set_seen : Text → ℕ → Bool → MockMailbox → MockMailbox × Result MailError (Unit {0})
unfolding find_locked put
set_seen folder uid seen mb = elim (find_locked mb folder uid) [
  | err e ↦ (mb, err e)
  | ok (f, before, mm, after) ↦ (
    record mb {
      folders = put folder (with_messages f (before ++ with_seen seen mm ∷ after)) mb.folders;
    },
    ok tt,
  )
]

-- A message without a date gets the time at which it comes in.
abbrev pub received : ℕ → Message → Message
received now m =
    if m.header.date == 0 then record m { header = record m.header { date = now } } else m

abbrev pub with_raw : Text → Message → MockMessage
with_raw raw m = record { msg = m; raw = some raw; att_data = [] }

module _ (parse : Text → Result Text Message) where
  unfoldable pub append_mail :
      ℕ → Text → Text → Bool → MockMailbox → MockMailbox × Result MailError (Unit {0})
  unfolding add
  append_mail now folder raw seen mb = elim (parse raw) [
    | err e ↦ (mb, err (unreadable e))
    | ok m ↦ (add folder (with_seen seen (with_raw raw (received now m))) mb, ok tt)
  ]

  -- What DeliverLocal does to the mailbox of the recipient; a message that does not parse is dropped.
  unfoldable pub deliver_local : ℕ → Text → MockMailbox → MockMailbox
  unfolding add
  deliver_local now raw mb = elim (parse raw) [
    | err e ↦ mb
    | ok m ↦ add (codes "INBOX") (with_raw raw (received now m)) mb
  ]
