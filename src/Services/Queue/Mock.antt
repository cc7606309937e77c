-- ===== src/Services/Queue/Mock.antt =====
-- The queue of development, and what may stand on a command line.
use wispbox.Base.{
  ℕ, ◌+◌, ◌≤◌, Text, Bool, true, false, not, ◌&&◌, ◌||◌, List, [], ◌∷◌, ok, err, leb, length, same,
  same_iff, any_byte, arith, ◌≡◌, ◌≢◌, ◌⊎◌, inl, inr, refl, sym, ◌∙◌, Bool-cases, All,
}
use wispbox.Base.Rows.{exists, count}
use wispbox.Services.Queue.{
  QueueItem, valid_queue_id, mock_delete_message, delete_first, message_not_found,
}

-- [A-Za-z0-9]
abbrev pub is_plain : ℕ → Bool
is_plain c =
    (leb b'A' c && leb c b'Z') || ((leb b'0' c && leb c b'9') || (leb b'a' c && leb c b'z'))

any_byte-All :
    (p : ℕ → Bool) (t : Text) → any_byte (λ c. not (p c)) t ≡ false → All (λ c. p c ≡ true) t
unfolding any_byte
any_byte-All p [] h = tt
any_byte-All p (c ∷ t) h = (ground arith, any_byte-All p t (ground arith))

-- A queue id that is taken for postqueue or postsuper is not empty, has 20 bytes at most, and each of its
-- bytes is a letter or a digit, so that it is one word and no option.
pub valid_queue_id_lem :
    (id : Text)
    → valid_queue_id id ≡ true
    → (id ≢ []) × (length id ≤ 20) × All (λ c. is_plain c ≡ true) id
unfolding valid_queue_id
valid_queue_id_lem id h =
    (λ e. ground (arith, same_iff id []), ground arith, any_byte-All is_plain id (ground arith))

abbrev pub has_id : Text → QueueItem → Bool
has_id id i = same i.queue_id id

delete_first-count :
    (id : Text) (items : List QueueItem)
    → exists (has_id id) items ≡ true
    → count (has_id id) (delete_first id items) + 1 ≡ count (has_id id) items
unfolding delete_first exists count
delete_first-count id [] h = cc
delete_first-count id (i ∷ items) h = ground (arith, delete_first-count id items)

delete_first-count_other :
    (id other : Text) (items : List QueueItem)
    → other ≢ id
    → count (has_id other) (delete_first id items) ≡ count (has_id other) items
unfolding delete_first count
delete_first-count_other id other [] ne = refl
delete_first-count_other id other (i ∷ items) ne = elim (Bool-cases (same i.queue_id id)) [
  | inr e ↦ ground (arith, delete_first-count_other id other items ne)
  | inl e ↦ elim (Bool-cases (same i.queue_id other)) [
    | inr k ↦ ground arith
    | inl k ↦ absurd (ne (sym ((same_iff i.queue_id other).0 k) ∙ (same_iff i.queue_id id).0 e))
  ]
]

-- Deleting a message from the queue of development takes away one item with its id if there is one, and
-- no item with another id; without such an item it reports an error and changes nothing.
pub mock_delete_message_lem :
    (id : Text) (items : List QueueItem)
    → (((mock_delete_message id items).1 ≡ ok tt)
        × (count (has_id id) (mock_delete_message id items).0 + 1 ≡ count (has_id id) items)
        × ((other : Text)
            → other ≢ id
            → count (has_id other) (mock_delete_message id items).0 ≡ count (has_id other) items))
      ⊎ (((mock_delete_message id items).1 ≡ err message_not_found)
          × ((mock_delete_message id items).0 ≡ items)
          × (exists (has_id id) items ≡ false))
unfolding mock_delete_message
mock_delete_message_lem id items = elim (Bool-cases (exists (has_id id) items)) [
  | inl e ↦ rw e (
      inl (
        refl,
        delete_first-count id items e,
        λ other ne. delete_first-count_other id other items ne,
      ))
  | inr e ↦ rw e (inr (refl, refl, refl))
]
