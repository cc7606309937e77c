-- ===== src/Imapclient/Parse.antt =====
-- internal/imapclient/parse.go. `create_reader` is the mail reader's: what it gives of the header of a text
-- and the parts that it comes to before the end or a malformed one. A part's `body` is what can be read of
-- it, and `read_error` the error after that.
pub mod Numbering
use wispbox.Base.{
  ℕ, ◌+◌, Text, codes, Bool, false, List, [], ◌∷◌, ◌++◌, Option, none, some, Result, ok, err,
  length, take, ◌==◌, ◌&&◌, ◌||◌, not, if◌then◌else◌, same, has_prefix, cut, ℤ, pos, negsuc,
}
use wispbox.Base.Decimals.{itoa}
use wispbox.Imapclient.{
  Address, AttachmentMeta, AttachmentContent, Message, MailError, no_attachment, unreadable,
}

-- *mail.InlineHeader and *mail.AttachmentHeader
pub data PartKind : Type 0 where
  inline attached : PartKind

pub record Part : Type 0 where
  pub kind : PartKind
  pub content_type : Text
  pub content_id : Text
  pub filename : Text
  pub body : Text
  pub read_error : Option Text

-- What the reader makes of a header; a field that does not parse is empty.
pub record MailReader : Type 0 where
  pub subject : Text
  pub date : ℕ
  pub message_id : Text
  pub in_reply_to : List Text
  pub sender : List Address
  pub to : List Address
  pub cc : List Address
  pub reply_to : List Address
  pub parts : List Part

abbrev pub max_inline_part_size : ℕ
max_inline_part_size = 1048576

abbrev is_angle : ℕ → Bool
is_angle c = c == b'<' || c == b'>'

unfoldable pub trim_angles_left : Text → Text
trim_angles_left [] = []
trim_angles_left (c ∷ s) = if is_angle c then trim_angles_left s else c ∷ s

unfoldable pub trim_angles_right : Text → Text
trim_angles_right [] = []
trim_angles_right (c ∷ s) = elim (trim_angles_right s) [
  | [] ↦ if is_angle c then [] else c ∷ []
  | d ∷ r ↦ c ∷ d ∷ r
]

-- strings.Trim(s, "<>")
unfoldable pub trim_angles : Text → Text
unfolding trim_angles_left trim_angles_right
trim_angles s = trim_angles_right (trim_angles_left s)

unfoldable pub inline_image_name : Text → ℕ → Text
unfolding cut itoa
inline_image_name content_type index =
    let ext : Text = elim (cut content_type b'/') [
      | none ↦ codes "img"
      | some (before, after) ↦ after
    ] in
    codes "inline-" ++ itoa (index + 1) ++ codes "." ++ ext

unfoldable pub attachment_name : Text → ℕ → Text
unfolding same itoa
attachment_name filename index =
    if same filename [] then codes "attachment-" ++ itoa (index + 1) else filename

abbrev pub with_attachment : AttachmentMeta → Message → Message
with_attachment meta m = record m { attachments = m.attachments ++ meta ∷ [] }

-- One part, and the index that the next attachment gets.
unfoldable pub parse_part : ℕ → Part → Message → ℕ × Message
unfolding has_prefix same inline_image_name attachment_name trim_angles
parse_part index p m = elim p.kind [
  | inline ↦
      let body = take max_inline_part_size p.body in
      if has_prefix p.content_type (codes "text/plain") && same m.text_body []
      then (index, record m { text_body = body })
      else if has_prefix p.content_type (codes "text/html") && same m.html_body []
      then (index, record m { html_body = body })
      else if has_prefix p.content_type (codes "image/")
      then (
        index + 1,
        with_attachment
            (record {
              index = index;
              filename = inline_image_name p.content_type index;
              mime_type = p.content_type;
              size = length body;
              content_id = trim_angles p.content_id;
            })
            m,
      )
      else (index, m)
  | attached ↦ (
    index + 1,
    with_attachment
        (record {
          index = index;
          filename = attachment_name p.filename index;
          mime_type = p.content_type;
          size = length p.body;
          content_id = trim_angles p.content_id;
        })
        m,
  )
]

unfoldable pub parse_parts : ℕ → List Part → Message → Message
unfolding parse_part
parse_parts index [] m = m
parse_parts index (p ∷ ps) m = let (next, m') = parse_part index p m in parse_parts next ps m'

-- What the header gives, before the parts are read.
unfoldable pub from_header : ℕ → MailReader → Message
from_header size r = record {
  header = record {
    uid = 0;
    folder = [];
    sender = r.sender;
    to = r.to;
    subject = r.subject;
    date = r.date;
    seen = false;
    answered = false;
    flagged = false;
    has_attachments = false;
    size = size;
  };
  cc = r.cc;
  reply_to = r.reply_to;
  message_id = r.message_id;
  in_reply_to = elim r.in_reply_to [ [] ↦ [] | ref ∷ _ ↦ ref ];
  text_body = [];
  html_body = [];
  attachments = [];
}

abbrev pub read_content : Text → Part → Result MailError AttachmentContent
read_content filename p = elim p.read_error [
  | some e ↦ err (unreadable e)
  | none ↦ ok (record { filename = filename; mime_type = p.content_type; content = p.body })
]

-- attIndex == index
abbrev pub is_at : ℕ → ℤ → Bool
is_at at (pos n) = at == n
is_at at (negsuc n) = false

-- The loop of ExtractAttachment, at an index of the numbering.
unfoldable pub extract_from : ℕ → ℤ → List Part → Result MailError AttachmentContent
unfolding has_prefix inline_image_name attachment_name
extract_from at index [] = err (no_attachment index)
extract_from at index (p ∷ ps) = elim p.kind [
  | inline ↦
      let rest = extract_from at index ps in
      let later = extract_from (at + 1) index ps in
      if has_prefix p.content_type (codes "image/")
      then if is_at at index then read_content (inline_image_name p.content_type at) p else later
      else rest
  | attached ↦
      let later = extract_from (at + 1) index ps in
      if is_at at index then read_content (attachment_name p.filename at) p else later
]

module _ (create_reader : Text → Result Text MailReader) where
  unfoldable pub parse_message : Text → Result Text Message
  unfolding from_header parse_parts
  parse_message raw = elim (create_reader raw) [
    | err e ↦ err e
    | ok r ↦
        let m = parse_parts 0 r.parts (from_header (length raw) r) in
        let has = not (length m.attachments == 0) in
        ok (record m { header = record m.header { has_attachments = has } })
  ]

  unfoldable pub extract_attachment : Text → ℤ → Result MailError AttachmentContent
  unfolding extract_from
  extract_attachment raw index = elim (create_reader raw) [
    | err e ↦ err (unreadable e)
    | ok r ↦ extract_from 0 index r.parts
  ]
