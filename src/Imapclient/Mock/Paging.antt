-- ===== src/Imapclient/Mock/Paging.antt =====
-- Reading a folder page by page.
use wispbox.Base.{ℕ, zero, suc, Text, List, [], ◌++◌, same, ℤ, if◌then◌else◌, Option, some, none}
use wispbox.Imapclient.{Header}
use wispbox.Imapclient.Mock.{MockMessage}
use wispbox.Imapclient.Mock.Pages.{page_of}

-- A client that asks for the pages one after the other until one has no cursor; `none` if its fuel is
-- used up before.
unfoldable pub read_pages : ℕ → List MockMessage → Text → ℤ → Option (List Header)
unfolding same page_of
read_pages zero msgs cursor limit = none
read_pages (suc fuel) msgs cursor limit =
    let page = page_of msgs cursor limit in
    let rest = read_pages fuel msgs page.next_cursor limit in
    if same page.next_cursor []
    then some page.messages
    else elim rest [ none ↦ none | some later ↦ some (page.messages ++ later) ]
