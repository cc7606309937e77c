-- ===== src/Services/Tests.antt =====
-- A queue of two messages.
use wispbox.Base.{
  ◌≤◌, Text, codes, true, List, [], ◌∷◌, Option, some, length, take, ℤ, pos, ◌≡◌, ◌≢◌, refl, All,
  same, any_byte,
}
use wispbox.Base.{ok, err, ◌+◌, ◌⊎◌, false, any_byte}
use wispbox.Base.Rows.{exists, count}
use wispbox.Services.Queue.{
  RawItem, QueueItem, list_limit, queue_count, valid_queue_id, mock_delete_message,
  message_not_found,
}
use wispbox.Services.Queue.Scan.{items_of, list_limit_lem}
use wispbox.Services.Queue.Mock.{valid_queue_id_lem, is_plain, has_id, mock_delete_message_lem}

-- Stand-ins for the time format and the JSON decoder: each line is an id.
abbrev rfc3339 : ℤ → Text
rfc3339 t = []

abbrev decode : Text → Option RawItem
decode line = some (record {
  queue_name = codes "deferred";
  queue_id = line;
  arrival_time = pos 0;
  message_size = pos 9;
  sender = [];
  recipients = [];
})

abbrev lines : List Text
lines = codes "A1" ∷ codes "  " ∷ codes "B2" ∷ []

list_limit_lem_example :
    (list_limit rfc3339 decode (pos 1) lines ≡ take 1 (items_of rfc3339 decode lines))
    × (queue_count rfc3339 decode lines ≡ length (items_of rfc3339 decode lines))
list_limit_lem_example = list_limit_lem rfc3339 decode (pos 1) lines

valid_queue_id_lem_example :
    (codes "4bXr2" ≢ [])
    × (length (codes "4bXr2") ≤ 20)
    × All (λ c. is_plain c ≡ true) (codes "4bXr2")
unfolding valid_queue_id any_byte same
valid_queue_id_lem_example = valid_queue_id_lem (codes "4bXr2") refl

abbrev mail : Text → QueueItem
mail id = record {
  queue_id = id;
  sender = [];
  recipients = [];
  size_bytes = pos 1;
  arrived_at = [];
  reason = [];
  queue = codes "hold";
}

-- The word that postsuper reads as every message passes the check.
all_is_valid : valid_queue_id (codes "ALL") ≡ true
unfolding valid_queue_id any_byte same
all_is_valid = refl

abbrev two : List QueueItem
two = mail (codes "A1") ∷ mail (codes "B2") ∷ []

mock_delete_message_lem_example :
    (((mock_delete_message (codes "B2") two).1 ≡ ok tt)
      × (count (has_id (codes "B2")) (mock_delete_message (codes "B2") two).0 + 1
          ≡ count (has_id (codes "B2")) two)
      × ((other : Text)
          → other ≢ codes "B2"
          → count (has_id other) (mock_delete_message (codes "B2") two).0
            ≡ count (has_id other) two))
    ⊎ (((mock_delete_message (codes "B2") two).1 ≡ err message_not_found)
        × ((mock_delete_message (codes "B2") two).0 ≡ two)
        × (exists (has_id (codes "B2")) two ≡ false))
mock_delete_message_lem_example = mock_delete_message_lem (codes "B2") two
