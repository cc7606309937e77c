-- ===== src/Imapclient/Mock/Pages.antt =====
-- internal/imapclient/mock.go: the pages of a folder and the search.
use wispbox.Base.{
  ℕ, ◌+◌, ◌-◌, ◌%◌, ◌^◌, Text, codes, Bool, List, [], ◌∷◌, ◌++◌, Result, ok, err, ltb, length, take,
  drop, map, if◌then◌else◌, to_lower, contains, ℤ, pos, negsuc, min,
}
use wispbox.Base.Rows.{select}
use wispbox.Base.Decimals.{atoi, itoa}
use wispbox.Imapclient.{Address, Page, MailError, clamp_limit}
use wispbox.Imapclient.Mock.{MockMessage, MockMailbox, folder_locked}

-- sort.SliceStable by date, the newest first
unfoldable pub insert_newest : MockMessage → List MockMessage → List MockMessage
insert_newest mm [] = mm ∷ []
insert_newest mm (m ∷ ms) =
    let rest = insert_newest mm ms in
    if ltb mm.msg.header.date m.msg.header.date then m ∷ rest else mm ∷ m ∷ ms

unfoldable pub newest_sorted : List MockMessage → List MockMessage
unfolding insert_newest
newest_sorted [] = []
newest_sorted (mm ∷ ms) = insert_newest mm (newest_sorted ms)

-- The offset that a cursor names, before it is cut to the length.
unfoldable pub offset_of : Text → ℕ
unfolding atoi
offset_of cursor = elim (atoi cursor) [ pos n ↦ n | negsuc n ↦ 0 ]

unfoldable pub page_of : List MockMessage → Text → ℤ → Page
unfolding newest_sorted offset_of clamp_limit itoa
page_of msgs cursor limit =
    let sorted = newest_sorted msgs in
    let offset = min (offset_of cursor) (length sorted) in
    let end = min (offset + clamp_limit limit) (length sorted) in
    record {
      messages = map (λ mm. mm.msg.header) (take (end - offset) (drop offset sorted));
      total = length sorted % 2 ^ 32;
      next_cursor = if ltb end (length sorted) then itoa end else [];
    }

unfoldable pub list_page : Text → Text → ℤ → MockMailbox → Result MailError Page
unfolding folder_locked page_of
list_page folder cursor limit mb = elim (folder_locked mb folder) [
  | err e ↦ err e
  | ok f ↦ ok (page_of f.messages cursor limit)
]

unfoldable pub addresses_text : List Address → Text
addresses_text [] = []
addresses_text (a ∷ []) = a.name ++ codes " " ++ a.email
addresses_text (a ∷ b ∷ as_) =
    a.name ++ codes " " ++ a.email ++ codes " " ++ addresses_text (b ∷ as_)

unfoldable pub matches : Text → MockMessage → Bool
unfolding to_lower contains addresses_text
matches query mm =
    let h = mm.msg.header in
    contains
      (to_lower (
        h.subject
        ++ codes " "
        ++ mm.msg.text_body
        ++ codes " "
        ++ addresses_text h.sender
        ++ codes " "
        ++ addresses_text h.to))
      (to_lower query)

unfoldable pub search : Text → Text → ℤ → MockMailbox → Result MailError Page
unfolding folder_locked page_of matches select
search folder query limit mb = elim (folder_locked mb folder) [
  | err e ↦ err e
  | ok f ↦ ok (record (page_of (select (matches query) f.messages) [] limit) { next_cursor = [] })
]
