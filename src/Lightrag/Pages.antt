-- ===== src/Lightrag/Pages.antt =====
-- The pages that types.py accepts for an index. An item that is neither text nor a mapping is one
-- with the attributes of PageText; what int() makes of a page is read already.
use graphrag_agent.Base.{ℕ, suc, not, Option, none, some, List, [], ◌∷◌, if◌then◌else◌, any}
use graphrag_agent.Base.Int.{ℤ, pos, ◌+ℤ◌, ltb_ℤ, eqb_ℤ}
use graphrag_agent.Base.Text.{Str, nonempty, strip}

pub data PageItem : Type 0 where
  text_item : Str → PageItem
  mapping_item : Option ℤ → Option ℤ → Option ℤ → Str → PageItem
  page_text : Option ℤ → Str → PageItem

pub record PageInput : Type 0 where
  pub page : ℤ
  pub content : Str

pub data Coerced : Type 0 where
  not_positive not_unique no_page_text : Coerced
  coerced : List PageInput → Coerced

-- `page`, `page_number` or `page_idx` of a mapping, or its position
abbrev pub mapping_page : Option ℤ → Option ℤ → Option ℤ → ℕ → ℤ
mapping_page (some page) number idx position = page
mapping_page none (some number) idx position = number
mapping_page none none (some idx) position = idx +ℤ pos 1
mapping_page none none none position = pos position

abbrev pub read_item : ℕ → PageItem → PageInput
read_item position (text_item content) = record { page = pos position; content = strip content }
read_item position (mapping_item page number idx content) = record {
  page = mapping_page page number idx position;
  content = strip content;
}
read_item position (page_text idx content) = record {
  page = mapping_page none none idx position;
  content = strip content;
}

abbrev pub with_page : PageInput → Coerced → Coerced
with_page p (coerced pages) = coerced (p ∷ pages)
with_page p other = other

-- The loop, from a position on and with the pages that it has seen.
unfoldable pub coerce_loop : ℕ → List ℤ → List PageItem → Coerced
coerce_loop position seen [] = coerced []
coerce_loop position seen (item ∷ items) =
    let p = read_item position item in
    let skipping = coerce_loop (suc position) seen items in
    let further = coerce_loop (suc position) (p.page ∷ seen) items in
    if not (nonempty p.content)
    then skipping
    else if ltb_ℤ p.page (pos 1)
    then not_positive
    else if any (eqb_ℤ p.page) seen
    then not_unique
    else with_page p further

abbrev pub checked_pages : Coerced → Coerced
checked_pages (coerced []) = no_page_text
checked_pages other = other

-- `coerce_pages`
abbrev pub coerce_pages : List PageItem → Coerced
coerce_pages items = checked_pages (coerce_loop 1 [] items)
