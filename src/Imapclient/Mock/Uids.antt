-- ===== src/Imapclient/Mock/Uids.antt =====
-- The uids of a mailbox as messages enter it, move and leave.
use wispbox.Base.{
  ℕ, ◌+◌, ◌<◌, ◌^◌, Text, Bool, List, [], ◌∷◌, ◌++◌, some, ◌≡◌, arith, sym, inl, inr, subst, Result,
  codes,
}
use wispbox.Base.Outcome.{Option-cases, Result-cases}
use wispbox.Base.Assoc.{get, put}
use wispbox.Imapclient.{Message}
use wispbox.Imapclient.Mock.{
  MockMessage, MockFolder, MockMailbox, add, move, delete_mail, set_seen, append_mail,
  deliver_local, after_uid, folder_locked, with_seen, messages_in, with_messages, with_raw,
  received,
}
use wispbox.Imapclient.Mock.Numbered.{
  Numbered, AreNumbered, IsNumbered, map-append, put-IsNumbered, entered, find_locked-cases, middle,
  without,
}

-- An operation while there are uids left.
pub data Step (parse : Text → Result Text Message) : MockMailbox → MockMailbox → Type 0 where
  appended :
      (now : ℕ) (folder raw : Text) (seen : Bool) {mb : MockMailbox}
      → mb.next_uid + 1 < 2 ^ 32
      → Step parse mb (append_mail parse now folder raw seen mb).0
  delivered :
      (now : ℕ) (raw : Text) {mb : MockMailbox}
      → mb.next_uid + 1 < 2 ^ 32
      → Step parse mb (deliver_local parse now raw mb)
  moved :
      (folder : Text) (uid : ℕ) (dest : Text) {mb : MockMailbox}
      → mb.next_uid + 1 < 2 ^ 32
      → Step parse mb (move folder uid dest mb).0
  deleted :
      (folder : Text) (uid : ℕ) {mb : MockMailbox} → Step parse mb (delete_mail folder uid mb).0
  seen_set :
      (folder : Text) (uid : ℕ) (seen : Bool) {mb : MockMailbox}
      → Step parse mb (set_seen folder uid seen mb).0

pub data Reach (parse : Text → Result Text Message) (a : MockMailbox) : MockMailbox → Type 0 where
  here : Reach parse a a
  next : {b c : MockMailbox} → Reach parse a b → Step parse b c → Reach parse a c

add-IsNumbered :
    (folder : Text) (mm : MockMessage) (mb : MockMailbox)
    → mb.next_uid + 1 < 2 ^ 32
    → IsNumbered mb
    → IsNumbered (add folder mm mb)
unfolding add
add-IsNumbered folder mm mb room h = elim (Option-cases (get folder mb.folders)) [
  | inl q ↦
      rw (add, q)
        (put-IsNumbered mb.next_uid mb.folders (after_uid mb.next_uid) folder _
          (omega (arith, room)) h (entered mb.next_uid folder [] mm room tt))
  | inr (f, q) ↦
      rw (add, q)
        (put-IsNumbered mb.next_uid mb.folders (after_uid mb.next_uid) folder _
          (omega (arith, room)) h (entered mb.next_uid folder f.messages mm room (h folder f q)))
]

delete_mail-IsNumbered :
    (folder : Text) (uid : ℕ) (mb : MockMailbox)
    → IsNumbered mb
    → IsNumbered (delete_mail folder uid mb).0
unfolding delete_mail
delete_mail-IsNumbered folder uid mb h = elim (find_locked-cases mb folder uid) [
  | inl (e, q) ↦ rw (delete_mail, q) h
  | inr (f, before, mm, after, q, g, k, u) ↦
      rw (delete_mail, q)
        (put-IsNumbered mb.next_uid mb.folders mb.next_uid folder _ (omega arith) h
          (without mb.next_uid f.messages before after mm k (h folder f g)))
]

set_seen-IsNumbered :
    (folder : Text) (uid : ℕ) (seen : Bool) (mb : MockMailbox)
    → IsNumbered mb
    → IsNumbered (set_seen folder uid seen mb).0
unfolding set_seen
set_seen-IsNumbered folder uid seen mb h = elim (find_locked-cases mb folder uid) [
  | inl (e, q) ↦ rw (set_seen, q) h
  | inr (f, before, mm, after, q, g, k, u) ↦
      rw (set_seen, q)
        (put-IsNumbered mb.next_uid mb.folders mb.next_uid folder _ (omega arith) h (
          subst (Numbered mb.next_uid) (sym (map-append before (with_seen seen mm ∷ after)))
            (middle mb.next_uid f.messages before after mm k (h folder f g))))
]

pub messages_in-AreNumbered :
    (n : ℕ) (name : Text) (folders : List (Text × MockFolder))
    → ((m : Text) (g : MockFolder) → get m folders ≡ some g → AreNumbered n g.messages)
    → AreNumbered n (messages_in name folders)
unfolding messages_in
messages_in-AreNumbered n name folders h = elim (Option-cases (get name folders)) [
  | inl q ↦ rw (messages_in, q) tt
  | inr (f, q) ↦ rw (messages_in, q) (h name f q)
]

move-IsNumbered :
    (folder : Text) (uid : ℕ) (dest : Text) (mb : MockMailbox)
    → mb.next_uid + 1 < 2 ^ 32
    → IsNumbered mb
    → IsNumbered (move folder uid dest mb).0
unfolding move
move-IsNumbered folder uid dest mb room h = elim (find_locked-cases mb folder uid) [
  | inl (e, q) ↦ rw (move, q) h
  | inr (f, before, mm, after, q, g, k, u) ↦ elim (Result-cases (folder_locked mb dest)) [
    | inr (e, z) ↦ rw (move, q, z) h
    | inl (df, z) ↦
        let n = mb.next_uid in
        let left = put folder (with_messages f (before ++ after)) mb.folders in
        let hl : (m : Text) (x : MockFolder) → get m left ≡ some x → AreNumbered n x.messages =
          put-IsNumbered n mb.folders n folder _ (omega arith) h
            (without n f.messages before after mm k (h folder f g)) in
        rw (move, q, z)
          (put-IsNumbered n left (after_uid n) dest _ (omega (arith, room)) hl (
            entered n dest (messages_in dest left) mm room
              (messages_in-AreNumbered n dest left hl)))
  ]
]

-- In whatever order messages are appended, delivered, moved, deleted and marked, each time while fewer
-- than 2^32 - 1 uids have been given out, the uids of a folder stay different from one another and up to
-- the last one given.
pub Reach-IsNumbered :
    (parse : Text → Result Text Message) {a b : MockMailbox}
    → IsNumbered a
    → Reach parse a b
    → IsNumbered b
unfolding append_mail deliver_local
Reach-IsNumbered parse h here = h
Reach-IsNumbered parse h (next r (appended now folder raw seen {mb} room)) =
    elim (Result-cases (parse raw)) [
      | inr (e, q) ↦ rw (append_mail, q) (Reach-IsNumbered parse h r)
      | inl (m, q) ↦
          rw (append_mail, q)
            (add-IsNumbered folder (with_seen seen (with_raw raw (received now m))) mb room
              (Reach-IsNumbered parse h r))
    ]
Reach-IsNumbered parse h (next r (delivered now raw {mb} room)) = elim (Result-cases (parse raw)) [
  | inr (e, q) ↦ rw (deliver_local, q) (Reach-IsNumbered parse h r)
  | inl (m, q) ↦
      rw (deliver_local, q)
        (add-IsNumbered (codes "INBOX") (with_raw raw (received now m)) mb room
          (Reach-IsNumbered parse h r))
]
Reach-IsNumbered parse h (next r (moved folder uid dest {mb} room)) =
    move-IsNumbered folder uid dest mb room (Reach-IsNumbered parse h r)
Reach-IsNumbered parse h (next r (deleted folder uid {mb})) =
    delete_mail-IsNumbered folder uid mb (Reach-IsNumbered parse h r)
Reach-IsNumbered parse h (next r (seen_set folder uid seen {mb})) =
    set_seen-IsNumbered folder uid seen mb (Reach-IsNumbered parse h r)
