-- ===== src/Assembler/Pages.antt =====
-- `html_table_to_text`, `assemble_pages` and `count_blocks_by_type` of text_assembler.py. The rows
-- that BeautifulSoup finds in a table, as the texts of their cells, are a parameter.
use graphrag_agent.Base.{
  ℕ, suc, ◌+◌, Bool, List, [], ◌∷◌, ◌++◌, map, if◌then◌else◌, ◌==◌, leb, length,
}
use graphrag_agent.Base.Text.{Str, codes, str_eq, nonempty, rstrip, drop_end, join}
use graphrag_agent.Base.Sort.{sort_by}

-- A block of content_list.json; a field that is missing has the value that the code assumes.
pub record Block : Type 0 where
  pub page_idx : ℕ
  pub type_name : Str
  pub text : Str
  pub table_body : Str
  pub bbox : List ℕ

pub record BlockSpan : Type 0 where
  pub block_index : ℕ
  pub block_type : Str
  pub page_idx : ℕ
  pub char_start : ℕ
  pub char_end : ℕ
  pub bbox : List ℕ

pub record PageText : Type 0 where
  pub page_idx : ℕ
  pub text : Str
  pub block_spans : List BlockSpan

abbrev pub newline : ℕ → Bool
newline c = c == 10

-- pages[page_idx].append((i, block))
unfoldable pub add_block : ℕ → ℕ × Block → List (ℕ × List (ℕ × Block)) → List (ℕ × List (ℕ × Block))
add_block page b [] = (page, b ∷ []) ∷ []
add_block page b ((p, blocks) ∷ pages) =
    if p == page then (p, blocks ++ b ∷ []) ∷ pages else (p, blocks) ∷ add_block page b pages

unfoldable pub group_blocks :
    ℕ → List Block → List (ℕ × List (ℕ × Block)) → List (ℕ × List (ℕ × Block))
unfolding add_block
group_blocks i [] pages = pages
group_blocks i (b ∷ blocks) pages = group_blocks (suc i) blocks (add_block b.page_idx (i, b) pages)

abbrev pub page_le : ℕ × List (ℕ × Block) → ℕ × List (ℕ × Block) → Bool
page_le a b = leb a.0 b.0

-- counts[type] += 1
unfoldable pub add_count : Str → List (Str × ℕ) → List (Str × ℕ)
add_count k [] = (k, 1) ∷ []
add_count k ((j, n) ∷ counts) =
    if str_eq j k then (j, n + 1) ∷ counts else (j, n) ∷ add_count k counts

unfoldable pub count_blocks_by_type : List Block → List (Str × ℕ) → List (Str × ℕ)
unfolding add_count
count_blocks_by_type [] counts = counts
count_blocks_by_type (b ∷ blocks) counts =
    count_blocks_by_type blocks (add_count b.type_name counts)

module _ (rows_of : Str → List (List Str)) where
  unfoldable pub html_table_to_text : Str → Str
  unfolding join
  html_table_to_text body = join (codes "\n") (map (join (codes " | ")) (rows_of body))

  -- The text of a block; a block that adds none is skipped.
  unfoldable pub block_text : Block → Str
  unfolding html_table_to_text rstrip
  block_text b =
      if str_eq b.type_name (codes "text")
      then rstrip b.text
      else if str_eq b.type_name (codes "table")
      then if nonempty b.table_body then html_table_to_text b.table_body else []
      else []

  abbrev pub span_of : ℕ → ℕ → ℕ → Block → BlockSpan
  span_of page cursor i b = record {
    block_index = i;
    block_type = b.type_name;
    page_idx = page;
    char_start = cursor;
    char_end = cursor + length (block_text b);
    bbox = b.bbox;
  }

  -- The loop over the blocks of a page: the joined buffer, the spans and the cursor.
  unfoldable pub page_loop : ℕ → List (ℕ × Block) → Str → List BlockSpan → ℕ → Str × List BlockSpan
  unfolding block_text
  page_loop page [] buffer spans cursor = (buffer, spans)
  page_loop page ((i, b) ∷ blocks) buffer spans cursor =
      let skip = page_loop page blocks buffer spans cursor in
      let added =
        page_loop page blocks (buffer ++ (block_text b ++ 10 ∷ []))
          (spans ++ span_of page cursor i b ∷ []) (cursor + length (block_text b) + 1) in
      if nonempty (block_text b) then added else skip

  unfoldable pub assemble_page : ℕ × List (ℕ × Block) → PageText
  unfolding page_loop drop_end
  assemble_page (page, blocks) =
      let (buffer, spans) = page_loop page blocks [] [] 0 in
      record { page_idx = page; text = drop_end newline buffer; block_spans = spans }

  unfoldable pub assemble_pages : List Block → List PageText
  unfolding assemble_page group_blocks sort_by
  assemble_pages content = map assemble_page (sort_by page_le (group_blocks 0 content []))
