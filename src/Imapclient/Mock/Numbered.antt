-- ===== src/Imapclient/Mock/Numbered.antt =====
-- Folders whose messages have uids of their own.
use wispbox.Base.{
  ℕ, ◌+◌, ◌<◌, ◌≤◌, ◌^◌, Text, List, [], ◌∷◌, ◌++◌, Option, some, ok, err, ◌≡◌, refl, arith, All,
  ◌==◌, All-append, map, ap, sym, inl, inr, Bool-cases, same, same_iff, subst, ◌∙◌, ◌⊎◌,
}
use wispbox.Base.Outcome.{Option-cases}
use wispbox.Base.Assoc.{get, put, get-put, get-put_other}
use wispbox.Imapclient.{MailError, no_folder, no_message}
use wispbox.Imapclient.Mock.{
  MockMessage, MockFolder, MockMailbox, uid_of, split_at_uid, find_locked, after_uid, entering,
  folder_locked,
}

-- No two uids are the same, and each has been given out.
abbrev pub Numbered : ℕ → List ℕ → Type 0
Numbered next [] = Unit
Numbered next (u ∷ us) = (u ≤ next) × All (λ v. ¬ (v ≡ u)) us × Numbered next us

abbrev pub AreNumbered : ℕ → List MockMessage → Type 0
AreNumbered next ms = Numbered next (map uid_of ms)

abbrev pub IsNumbered : MockMailbox → Type 0
IsNumbered mb =
    (name : Text) (f : MockFolder)
    → get name mb.folders ≡ some f
    → AreNumbered mb.next_uid f.messages

pub Numbered-later : (n n' : ℕ) (us : List ℕ) → n ≤ n' → Numbered n us → Numbered n' us
Numbered-later n n' [] h k = tt
Numbered-later n n' (u ∷ us) h (l, d, k) = (omega (arith, h, l), d, Numbered-later n n' us h k)

-- A uid that is new.
pub append-Numbered : (n : ℕ) (us : List ℕ) → Numbered n us → Numbered (n + 1) (us ++ (n + 1) ∷ [])
append-Numbered n [] k = (omega arith, tt, tt)
append-Numbered n (u ∷ us) (l, d, k) = (
  omega (arith, l),
  All-append (λ v. ¬ (v ≡ u)) us ((n + 1) ∷ []) d ((λ q. omega (arith, l, q)), tt),
  append-Numbered n us k,
)

All-middle :
    (P : ℕ → Type 0) (us vs : List ℕ) (u : ℕ) → All P (us ++ u ∷ vs) → P u × All P (us ++ vs)
All-middle P [] vs u h = h
All-middle P (v ∷ us) vs u (p, h) = let (q, k) = All-middle P us vs u h in (q, (p, k))

-- A uid that is taken out is in no other place.
pub Numbered-middle :
    (n : ℕ) (us vs : List ℕ) (u : ℕ)
    → Numbered n (us ++ u ∷ vs)
    → Numbered n (us ++ vs) × All (λ v. ¬ (v ≡ u)) (us ++ vs) × (u ≤ n)
Numbered-middle n [] vs u (l, d, k) = (k, d, l)
Numbered-middle n (v ∷ us) vs u (l, d, k) =
    let (k', d', l') = Numbered-middle n us vs u k in
    let (q, d'') = All-middle (λ w. ¬ (w ≡ v)) us vs u d in
    ((l, d'', k'), ((λ e. q (sym e)), d'), l')

pub split_at_uid_lem :
    (uid : ℕ) (ms : List MockMessage) {before after : List MockMessage} {mm : MockMessage}
    → split_at_uid uid ms ≡ some (before, mm, after)
    → (ms ≡ before ++ mm ∷ after) × (uid_of mm ≡ uid)
unfolding split_at_uid
split_at_uid_lem uid [] h = cc h
split_at_uid_lem uid (m ∷ ms) {before} {after} {mm} h = elim (Bool-cases (uid_of m == uid)) [
  | inl e ↦
      let q : Path (Option (List MockMessage × MockMessage × List MockMessage)) (some ([], m, ms))
          (some (before, mm, after)) =
        rw e at h in
      ground (arith, e, q)
  | inr e ↦ elim (Option-cases (split_at_uid uid ms)) [
    | inl q ↦ cc (rw (e, split_at_uid, q) at h)
    | inr ((b, x, a), q) ↦
        let (k, u) = split_at_uid_lem uid ms q in
        let z : Path (Option (List MockMessage × MockMessage × List MockMessage))
            (some (m ∷ b, x, a)) (some (before, mm, after)) =
          rw (e, q) at h in
        ground (arith, z, k, u)
  ]
]

pub map-append : (ms ns : List MockMessage) → map uid_of (ms ++ ns) ≡ map uid_of ms ++ map uid_of ns
map-append [] ns = refl
map-append (m ∷ ms) ns = ap (λ us. uid_of m ∷ us) (map-append ms ns)

module _ (next_uid : ℕ) (folders : List (Text × MockFolder)) where
  -- A folder that is put back with numbered messages.
  pub put-IsNumbered :
      (next' : ℕ) (name : Text) (f : MockFolder)
      → next_uid ≤ next'
      → ((n : Text) (g : MockFolder) → get n folders ≡ some g → AreNumbered next_uid g.messages)
      → AreNumbered next' f.messages
      → (n : Text) (g : MockFolder) → get n (put name f folders) ≡ some g
      → AreNumbered next' g.messages
  put-IsNumbered next' name f l h k n g e = elim (Bool-cases (same name n)) [
    | inl q ↦
        let here : get name (put name f folders) ≡ some g =
          subst (λ t. get t (put name f folders) ≡ some g) (sym ((same_iff name n).0 q)) e in
        let z : f ≡ g = cc (get-put name f folders, here) in
        subst (λ x. AreNumbered next' x.messages) z k
    | inr q ↦
        Numbered-later next_uid next' (map uid_of g.messages) l
          (h n g (sym (get-put_other name n f folders q) ∙ e))
  ]

pub next_after : (n : ℕ) → n + 1 < 2 ^ 32 → after_uid n ≡ n + 1
next_after n h = omega (arith, h)

pub entered :
    (n : ℕ) (folder : Text) (ms : List MockMessage) (mm : MockMessage)
    → n + 1 < 2 ^ 32
    → AreNumbered n ms
    → AreNumbered (after_uid n) (ms ++ entering (after_uid n) folder mm ∷ [])
entered n folder ms mm room k = rw (next_after n room) (
    subst (Numbered (n + 1)) (sym (map-append ms (entering (n + 1) folder mm ∷ [])))
      (append-Numbered n (map uid_of ms) k))

-- What a message that is found tells of its folder.
pub find_locked-cases :
    (mb : MockMailbox) (folder : Text) (uid : ℕ)
    → ((e : MailError) × (find_locked mb folder uid ≡ err e))
      ⊎ ((f : MockFolder) × (before : List MockMessage) × (mm : MockMessage) × (after : List
            MockMessage)
          × (find_locked mb folder uid ≡ ok (f, before, mm, after))
          × (get folder mb.folders ≡ some f)
          × (f.messages ≡ before ++ mm ∷ after)
          × (uid_of mm ≡ uid))
unfolding find_locked folder_locked
find_locked-cases mb folder uid = elim (Option-cases (get folder mb.folders)) [
  | inl q ↦ inl (no_folder folder, rw (find_locked, folder_locked, q) refl)
  | inr (f, q) ↦ elim (Option-cases (split_at_uid uid f.messages)) [
    | inl z ↦ inl (no_message folder uid, rw (find_locked, folder_locked, q, z) refl)
    | inr ((before, mm, after), z) ↦
        let (k, u) = split_at_uid_lem uid f.messages z in
        inr (f, before, mm, after, rw (find_locked, folder_locked, q, z) refl, q, k, u)
  ]
]

-- The messages that stay when one leaves, and the same messages with one changed but for its uid.
pub middle :
    (n : ℕ) (ms before after : List MockMessage) (mm : MockMessage)
    → ms ≡ before ++ mm ∷ after
    → AreNumbered n ms
    → Numbered n (map uid_of before ++ uid_of mm ∷ map uid_of after)
middle n ms before after mm e k =
    subst (Numbered n) (ap (map uid_of) e ∙ map-append before (mm ∷ after)) k

pub without :
    (n : ℕ) (ms before after : List MockMessage) (mm : MockMessage)
    → ms ≡ before ++ mm ∷ after
    → AreNumbered n ms
    → AreNumbered n (before ++ after)
without n ms before after mm e k =
    subst (Numbered n) (sym (map-append before after))
      (Numbered-middle n (map uid_of before) (map uid_of after) (uid_of mm)
        (middle n ms before after mm e k)).0
