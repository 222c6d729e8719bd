-- ===== src/Assembler/Examples.antt =====
-- The theorems on page texts at concrete blocks. A table's body stands for its own single row.
use graphrag_agent.Base.{ℕ, ◌≡◌, refl, List, [], ◌∷◌}
use graphrag_agent.Base.Text.{Str, codes, str_eq}
use graphrag_agent.Assembler.Pages.{Block, html_table_to_text, assemble_page}
use graphrag_agent.Assembler.Spans.{Marks, kept, Closed-empty, assemble_page-Marks}

-- Two rows, of which the second is empty.
abbrev two_rows : Str → List (List Str)
two_rows s = (s ∷ []) ∷ [] ∷ []

abbrev no_rows : Str → List (List Str)
no_rows s = []

abbrev heading : Block
heading = record {
  page_idx = 1;
  type_name = codes "text";
  text = codes "Title \n";
  table_body = [];
  bbox = [];
}

abbrev figure : Block
figure = record heading { type_name = codes "image" }

abbrev table : Block
table = record heading { type_name = codes "table"; table_body = codes "cell" }

abbrev page_blocks : List (ℕ × Block)
page_blocks = (0, heading) ∷ (1, figure) ∷ (2, heading) ∷ []

joined_text : (assemble_page no_rows (1, page_blocks)).text ≡ codes "Title\nTitle"
unfolding assemble_page str_eq
joined_text = refl

assemble_page-Marks_example :
    Marks no_rows 1
      (assemble_page no_rows (1, page_blocks)).text
      (assemble_page no_rows (1, page_blocks)).block_spans
      (kept no_rows page_blocks)
unfolding html_table_to_text
assemble_page-Marks_example =
    assemble_page-Marks no_rows 1 page_blocks (Closed-empty, (Closed-empty, (Closed-empty, tt)))
