-- ===== src/Services/Queue.antt =====
-- internal/services/queue.go: reading `postqueue -j`, the checks before a queue id is passed on, and the
-- queue that development uses. `decode` is json.Unmarshal of one line, `rfc3339` the rendering of a time;
-- the lines are the scanner's, which reports no error.
pub mod Scan
pub mod Mock
use wispbox.Base.{
  ℕ, ◌+◌, Text, codes, Bool, true, false, not, ◌&&◌, ◌||◌, List, [], ◌∷◌, ◌++◌, Option, none, some,
  Result, ok, err, ltb, leb, length, take, map, ◌==◌, if◌then◌else◌, same, trim_space, any_byte, ℤ,
  pos, negsuc,
}
use wispbox.Base.Rows.{exists}

pub record QueueItem : Type 0 where
  pub queue_id : Text
  pub sender : Text
  pub recipients : List Text
  pub size_bytes : ℤ
  pub arrived_at : Text
  pub reason : Text
  pub queue : Text

-- One line of postqueue's output.
pub record RawRecipient : Type 0 where
  pub address : Text
  pub delay_reason : Text

pub record RawItem : Type 0 where
  pub queue_name : Text
  pub queue_id : Text
  pub arrival_time : ℤ
  pub message_size : ℤ
  pub sender : Text
  pub recipients : List RawRecipient

pub record QueueScan : Type 0 where
  pub items : List QueueItem
  pub count : ℕ

abbrev pub max_queue_list_items : ℤ
max_queue_list_items = pos 200

-- The reason that is left once all recipients have been read: the last one that is not empty.
unfoldable pub last_reason : Text → List RawRecipient → Text
unfolding same
last_reason reason [] = reason
last_reason reason (r ∷ rs) =
    last_reason (if same r.delay_reason [] then reason else r.delay_reason) rs

-- keep < 0 || n < keep
abbrev pub has_room : ℤ → ℕ → Bool
has_room (negsuc k) n = true
has_room (pos k) n = ltb n k

-- keep <= 0 || keep > 200
unfoldable pub clamp_keep : ℤ → ℤ
clamp_keep (negsuc k) = max_queue_list_items
clamp_keep (pos k) = if k == 0 || ltb 200 k then max_queue_list_items else pos k

-- A queue id that may stand on a command line.
unfoldable pub valid_queue_id : Text → Bool
unfolding any_byte same
valid_queue_id id =
    if same id [] || ltb 20 (length id)
    then false
    else not (
        any_byte
          (λ c. not (
            (leb b'A' c && leb c b'Z')
            || ((leb b'0' c && leb c b'9') || (leb b'a' c && leb c b'z'))))
          id)

module _ (rfc3339 : ℤ → Text) (decode : Text → Option RawItem) where
  unfoldable pub item_of : RawItem → QueueItem
  unfolding last_reason
  item_of raw = record {
    queue_id = raw.queue_id;
    sender = raw.sender;
    recipients = map (λ r. r.address) raw.recipients;
    size_bytes = raw.message_size;
    arrived_at = rfc3339 raw.arrival_time;
    reason = last_reason [] raw.recipients;
    queue = raw.queue_name;
  }

  unfoldable pub scan_line : ℤ → QueueScan → Text → QueueScan
  unfolding same trim_space
  scan_line keep out text =
      let line = trim_space text in
      if same line [] then out else elim (decode line) [
        | none ↦ out
        | some raw ↦ record {
          items =
              if has_room keep (length out.items) then out.items ++ item_of raw ∷ [] else out.items;
          count = out.count + 1;
        }
      ]

  unfoldable pub scan_from : ℤ → QueueScan → List Text → QueueScan
  unfolding scan_line
  scan_from keep out [] = out
  scan_from keep out (line ∷ lines) = scan_from keep (scan_line keep out line) lines

  unfoldable pub scan_postqueue_json : ℤ → List Text → QueueScan
  unfolding scan_from
  scan_postqueue_json keep lines = scan_from keep (record { items = []; count = 0 }) lines

  -- What ListLimit and Count answer when postqueue succeeds.
  unfoldable pub list_limit : ℤ → List Text → List QueueItem
  unfolding scan_postqueue_json clamp_keep
  list_limit keep lines = (scan_postqueue_json (clamp_keep keep) lines).items

  unfoldable pub queue_count : List Text → ℕ
  unfolding scan_postqueue_json
  queue_count lines = (scan_postqueue_json (pos 0) lines).count

-- The queue of development.
unfoldable pub mock_list_limit : ℤ → List QueueItem → List QueueItem
mock_list_limit (negsuc k) items = items
mock_list_limit (pos k) items = if k == 0 || ltb (length items) k then items else take k items

abbrev pub retried : QueueItem → QueueItem
retried i = record i { queue = codes "active"; reason = [] }

unfoldable pub mock_flush : List QueueItem → List QueueItem
mock_flush items = map retried items

pub data MockError : Type 0 where
  message_not_found : MockError

-- The loops stop at the first item with the id.
unfoldable pub retry_first : Text → List QueueItem → List QueueItem
unfolding same
retry_first id [] = []
retry_first id (i ∷ is) =
    let rest = retry_first id is in if same i.queue_id id then retried i ∷ is else i ∷ rest

unfoldable pub delete_first : Text → List QueueItem → List QueueItem
unfolding same
delete_first id [] = []
delete_first id (i ∷ is) =
    let rest = delete_first id is in if same i.queue_id id then is else i ∷ rest

unfoldable pub mock_retry : Text → List QueueItem → List QueueItem × Result MockError (Unit {0})
unfolding exists same retry_first
mock_retry id items =
    if exists (λ i. same i.queue_id id) items
    then (retry_first id items, ok tt)
    else (items, err message_not_found)

unfoldable pub mock_delete_message :
    Text → List QueueItem → List QueueItem × Result MockError (Unit {0})
unfolding exists same delete_first
mock_delete_message id items =
    if exists (λ i. same i.queue_id id) items
    then (delete_first id items, ok tt)
    else (items, err message_not_found)
