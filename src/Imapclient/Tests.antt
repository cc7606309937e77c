-- ===== src/Imapclient/Tests.antt =====
-- Closed runs of the mailbox of development and of the parser.
use wispbox.Base.{
  ℕ, Text, codes, true, false, List, [], ◌∷◌, some, none, Result, ok, err, ◌≡◌, refl, arith, pos,
}
use wispbox.Base.Assoc.{get}
use wispbox.Imapclient.{Header, Message, no_message, custom}
use wispbox.Imapclient.Mock.{
  MockMessage, MockFolder, MockMailbox, move, get_message, folder_locked, append_mail,
}
use wispbox.Imapclient.Mock.Uids.{Reach, Reach-IsNumbered, next, here, appended}
use wispbox.Imapclient.Mock.Numbered.{IsNumbered}
use wispbox.Imapclient.Mock.Moving.{move_lem}
use wispbox.Imapclient.Parse.{Part, MailReader, inline, attached, parse_message, extract_attachment}
use wispbox.Imapclient.Parse.Numbering.{listed, downloaded, extract_attachment-parse_message}

abbrev head_of : ℕ → ℕ → Text → Header
head_of uid date folder = record {
  uid = uid;
  folder = folder;
  sender = [];
  to = [];
  subject = codes "hi";
  date = date;
  seen = false;
  answered = false;
  flagged = false;
  has_attachments = false;
  size = 2;
}

abbrev letter : ℕ → ℕ → Text → Message
letter uid date folder = record {
  header = head_of uid date folder;
  cc = [];
  reply_to = [];
  message_id = [];
  in_reply_to = [];
  text_body = codes "hi";
  html_body = [];
  attachments = [];
}

abbrev stored : ℕ → ℕ → MockMessage
stored uid date = record { msg = letter uid date (codes "A"); raw = none; att_data = [] }

abbrev empty : MockMailbox
empty = record { order = []; folders = []; next_uid = 0 }

abbrev parse_one : Text → Result Text Message
parse_one raw = ok (letter 0 7 [])

empty-IsNumbered : IsNumbered empty
unfolding get
empty-IsNumbered name f e = cc e

abbrev filled : MockMailbox
filled = (append_mail parse_one 9 (codes "A") (codes "raw") true empty).0

abbrev both : MockMailbox
both = (append_mail parse_one 9 (codes "B") (codes "raw") true filled).0

both-Reach : Reach parse_one empty both
unfolding append_mail
both-Reach =
    next (next here (appended 9 (codes "A") (codes "raw") true (omega arith)))
      (appended 9 (codes "B") (codes "raw") true (omega arith))

Reach-IsNumbered_example : IsNumbered both
Reach-IsNumbered_example = Reach-IsNumbered parse_one empty-IsNumbered both-Reach

abbrev in_b : MockFolder
in_b = record {
  role = custom;
  messages =
      record {
        msg = record (letter 2 7 (codes "B")) {
          header = record (head_of 2 7 (codes "B")) { seen = true };
        };
        raw = some (codes "raw");
        att_data = [];
      }
      ∷ [];
}

abbrev first : Message
first = record (letter 1 7 (codes "A")) {
  header = record (head_of 1 7 (codes "A")) { seen = true };
}

move_lem_example :
    let after = (move (codes "A") 1 (codes "B") both).0 in
    ((move (codes "A") 1 (codes "B") both).1 ≡ ok tt)
    × (get_message (codes "A") 1 after ≡ err (no_message (codes "A") 1))
    × (get_message (codes "B") after.next_uid after
        ≡ ok (record first {
          header = record first.header { uid = after.next_uid; folder = codes "B" };
        }))
unfolding append_mail get_message folder_locked
move_lem_example =
    move_lem (codes "A") 1 (codes "B") both first in_b
      (Reach-IsNumbered parse_one empty-IsNumbered both-Reach) (omega arith) refl refl

abbrev three : List MockMessage
three = stored 1 5 ∷ stored 2 9 ∷ stored 3 7 ∷ []

abbrev image : Part
image = record {
  kind = inline;
  content_type = codes "image/png";
  content_id = codes "<c>";
  filename = [];
  body = codes "pixels";
  read_error = none;
}

abbrev reader : MailReader
reader = record {
  subject = [];
  date = 0;
  message_id = [];
  in_reply_to = [];
  sender = [];
  to = [];
  cc = [];
  reply_to = [];
  parts =
      record image { content_type = codes "text/plain" }
      ∷ image
      ∷ record image { kind = attached; content_type = codes "text/plain" }
      ∷ [];
}

abbrev read_all : Text → Result Text MailReader
read_all raw = ok reader

abbrev message_of : Result Text Message → Message
message_of (ok m) = m
message_of (err e) = letter 0 0 []

extract_attachment-parse_message_example :
    downloaded 1 (extract_attachment read_all (codes "raw") (pos 1))
    ≡ listed (message_of (parse_message read_all (codes "raw"))).attachments 1
unfolding parse_message
extract_attachment-parse_message_example =
    extract_attachment-parse_message read_all (codes "raw") reader
      (message_of (parse_message read_all (codes "raw"))) 1 refl (refl, (refl, (refl, tt))) refl
