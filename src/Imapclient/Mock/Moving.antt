-- ===== src/Imapclient/Mock/Moving.antt =====
-- A message that is moved to another folder, or to the end of its own.
use wispbox.Base.{
  ℕ, ◌+◌, ◌<◌, ◌≤◌, ◌^◌, Text, List, [], ◌∷◌, ◌++◌, none, some, ok, err, ◌≡◌, refl, arith, All,
  ◌==◌, All-append, map, sym, inl, inr, Bool-cases, same, same_iff, subst, ◌∙◌, false, true,
}
use wispbox.Base.Outcome.{Option-cases}
use wispbox.Base.Assoc.{get, put, get-put, get-put_other}
use wispbox.Imapclient.{Message, no_message}
use wispbox.Imapclient.Mock.{
  MockMessage, MockFolder, MockMailbox, uid_of, move, split_at_uid, get_message, find_locked,
  folder_locked, entering, after_uid, with_messages, messages_in,
}
use wispbox.Imapclient.Mock.Uids.{messages_in-AreNumbered}
use wispbox.Imapclient.Mock.Numbered.{
  Numbered, AreNumbered, IsNumbered, find_locked-cases, Numbered-middle, map-append, middle,
  without, put-IsNumbered,
}

above : (n uid : ℕ) (us : List ℕ) → n < uid → Numbered n us → All (λ v. ¬ (v ≡ uid)) us
above n uid [] h k = tt
above n uid (u ∷ us) h (l, d, k) = ((λ e. omega (arith, h, l, e)), above n uid us h k)

absent :
    (uid : ℕ) (ms : List MockMessage)
    → All (λ v. ¬ (v ≡ uid)) (map uid_of ms)
    → split_at_uid uid ms ≡ none
unfolding split_at_uid
absent uid [] h = refl
absent uid (m ∷ ms) (d, h) =
    let e : (uid_of m == uid) ≡ false = ground (arith, d) in rw (e, absent uid ms h) refl

last_one :
    (uid : ℕ) (ms : List MockMessage) (mm : MockMessage)
    → All (λ v. ¬ (v ≡ uid)) (map uid_of ms)
    → uid_of mm ≡ uid
    → split_at_uid uid (ms ++ mm ∷ []) ≡ some (ms, mm, [])
unfolding split_at_uid
last_one uid [] mm h e = let q : (uid_of mm == uid) ≡ true = ground (arith, e) in rw q refl
last_one uid (m ∷ ms) mm (d, h) e =
    let q : (uid_of m == uid) ≡ false = ground (arith, d) in rw (q, last_one uid ms mm h e) refl

get_message-in :
    (folder : Text) (uid : ℕ) (mb : MockMailbox) (f : MockFolder)
    → get folder mb.folders ≡ some f
    → get_message folder uid mb ≡ elim (split_at_uid uid f.messages) [
      | none ↦ err (no_message folder uid)
      | some (before, mm, after) ↦ ok mm.msg
    ]
unfolding get_message find_locked folder_locked
get_message-in folder uid mb f e = elim (Option-cases (split_at_uid uid f.messages)) [
  | inl z ↦ rw (get_message, find_locked, folder_locked, e, z) refl
  | inr ((before, mm, after), z) ↦ rw (get_message, find_locked, folder_locked, e, z) refl
]

messages_in-found :
    (name : Text) (folders : List (Text × MockFolder)) (f : MockFolder)
    → get name folders ≡ some f
    → messages_in name folders ≡ f.messages
unfolding messages_in
messages_in-found name folders f e = rw (messages_in, e) refl

get_message-absent :
    (folder : Text) (uid : ℕ) (mb : MockMailbox) (f : MockFolder)
    → get folder mb.folders ≡ some f
    → All (λ v. ¬ (v ≡ uid)) (map uid_of f.messages)
    → get_message folder uid mb ≡ err (no_message folder uid)
get_message-absent folder uid mb f e d =
    rw (get_message-in folder uid mb f e, absent uid f.messages d) refl

get_message-last :
    (folder : Text) (uid : ℕ) (mb : MockMailbox) (f : MockFolder) (ms : List MockMessage)
    (mm : MockMessage)
    → get folder mb.folders ≡ some (with_messages f (ms ++ mm ∷ []))
    → All (λ v. ¬ (v ≡ uid)) (map uid_of ms)
    → uid_of mm ≡ uid
    → get_message folder uid mb ≡ ok mm.msg
get_message-last folder uid mb f ms mm e d u =
    rw (get_message-in folder uid mb (with_messages f (ms ++ mm ∷ [])) e, last_one uid ms mm d u)
      refl

-- The folders once a message has been taken out of one and put at the end of another.
abbrev placing :
    MockMailbox
    → Text
    → Text
    → MockFolder
    → MockFolder
    → List MockMessage
    → MockMessage
    → MockMailbox
placing mb folder dest f df rest mm =
    let left = put folder (with_messages f rest) mb.folders in
    record mb {
      folders =
          put dest
            (with_messages df
              (messages_in dest left ++ entering (after_uid mb.next_uid) dest mm ∷ []))
            left;
      next_uid = after_uid mb.next_uid;
    }

module _ (folder : Text) (uid : ℕ) (dest : Text) (mb : MockMailbox) (f df : MockFolder)
    (before : List MockMessage) (mm : MockMessage) (after : List MockMessage) where
  -- The uid is in no place of what is left, nor of that with the message under its new uid.
  gone_left :
      AreNumbered mb.next_uid f.messages
      → f.messages ≡ before ++ mm ∷ after
      → uid_of mm ≡ uid
      → All (λ v. ¬ (v ≡ uid)) (map uid_of (before ++ after)) × (uid ≤ mb.next_uid)
  gone_left h k u =
      let (_, d, l) =
        Numbered-middle mb.next_uid (map uid_of before) (map uid_of after) (uid_of mm)
          (middle mb.next_uid f.messages before after mm k h) in
      (
        subst (λ us. All (λ v. ¬ (v ≡ uid)) us) (sym (map-append before after))
            (subst (λ x. All (λ v. ¬ (v ≡ x)) (map uid_of before ++ map uid_of after)) u d),
        subst (λ x. x ≤ mb.next_uid) u l,
      )

  old_gone :
      All (λ v. ¬ (v ≡ uid)) (map uid_of (before ++ after))
      → uid ≤ mb.next_uid
      → mb.next_uid + 1 < 2 ^ 32
      → get_message folder uid (placing mb folder dest f df (before ++ after) mm)
        ≡ err (no_message folder uid)
  old_gone d l room =
      let left = put folder (with_messages f (before ++ after)) mb.folders in
      let e' = entering (after_uid mb.next_uid) dest mm in
      elim (Bool-cases (same dest folder)) [
        | inr q ↦
            get_message-absent folder uid (placing mb folder dest f df (before ++ after) mm)
              (with_messages f (before ++ after))
              (get-put_other dest folder _ left q ∙ get-put folder _ mb.folders) d
        | inl q ↦
            let here : dest ≡ folder = (same_iff dest folder).0 q in
            let kept : messages_in dest left ≡ before ++ after =
              rw here (messages_in-found folder left _ (get-put folder _ mb.folders)) in
            get_message-absent folder uid (placing mb folder dest f df (before ++ after) mm)
              (with_messages df (messages_in dest left ++ e' ∷ []))
              (subst
                (λ t.
                  get t (put dest (with_messages df (messages_in dest left ++ e' ∷ [])) left)
                  ≡ some (with_messages df (messages_in dest left ++ e' ∷ [])))
                here (get-put dest _ left))
              (rw (kept, map-append (before ++ after) (e' ∷ []))
                (All-append (λ v. ¬ (v ≡ uid)) (map uid_of (before ++ after)) _ d
                  ((λ z. omega (arith, room, l, z)), tt)))
      ]

  placed :
      IsNumbered mb
      → mb.next_uid + 1 < 2 ^ 32
      → get folder mb.folders ≡ some f
      → f.messages ≡ before ++ mm ∷ after
      → uid_of mm ≡ uid
      → let m' = placing mb folder dest f df (before ++ after) mm in
        (get_message folder uid m' ≡ err (no_message folder uid))
        × (get_message dest m'.next_uid m' ≡ ok (entering m'.next_uid dest mm).msg)
  placed h room g k u =
      let (d, l) = gone_left (h folder f g) k u in
      let n = mb.next_uid in
      let left = put folder (with_messages f (before ++ after)) mb.folders in
      let kept = messages_in dest left in
      let hl : (m : Text) (x : MockFolder) → get m left ≡ some x → AreNumbered n x.messages =
        put-IsNumbered n mb.folders n folder _ (omega arith) h
          (without n f.messages before after mm k (h folder f g)) in
      (
        old_gone d l room,
        get_message-last dest (after_uid n) (placing mb folder dest f df (before ++ after) mm) df
            kept (entering (after_uid n) dest mm) (get-put dest _ left)
            (above n (after_uid n) (map uid_of kept) (omega (arith, room))
              (messages_in-AreNumbered n dest left hl))
            refl,
      )

-- After a move that finds its message and its folder, the old uid names nothing in the folder left, and
-- the destination, which may be that folder, has the message under the uid given out last, while fewer than 2^32 - 1 have been given out.
pub move_lem :
    (folder : Text) (uid : ℕ) (dest : Text) (mb : MockMailbox) (m : Message) (df : MockFolder)
    → IsNumbered mb
    → mb.next_uid + 1 < 2 ^ 32
    → get_message folder uid mb ≡ ok m
    → folder_locked mb dest ≡ ok df
    → let after = (move folder uid dest mb).0 in
      ((move folder uid dest mb).1 ≡ ok tt)
      × (get_message folder uid after ≡ err (no_message folder uid))
      × (get_message dest after.next_uid after
          ≡ ok (record m { header = record m.header { uid = after.next_uid; folder = dest } }))
unfolding move get_message
move_lem folder uid dest mb m df h room found there = elim (find_locked-cases mb folder uid) [
  | inl (e, q) ↦ cc (rw (get_message, q) at found)
  | inr (f, before, mm, after, q, g, k, u) ↦
      let e : mm.msg ≡ m = cc (rw (get_message, q) at found) in
      let (old, new) = placed folder uid dest mb f df before mm after h room g k u in
      rw (move, q, there, ← e) (refl, old, new)
]
