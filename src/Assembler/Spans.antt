-- ===== src/Assembler/Spans.antt =====
-- The spans of a page point at the texts of its blocks.
use mathlib.Core.List.{append-nil, append_assoc}
use graphrag_agent.Base.{
  ℕ, ◌+◌, ◌-◌, ◌≡◌, refl, ap, ◌∙◌, sym, Bool, true, List, [], ◌∷◌, ◌++◌, if◌then◌else◌, length,
  length-append, take, drop, All, arith, Bool-cases, inl, inr, subst, ◌≤◌, ◌<◌,
}
use graphrag_agent.Base.Text.{Str, codes, str_eq, nonempty, rstrip, drop_end, is_space}
use graphrag_agent.Assembler.Pages.{
  Block, BlockSpan, newline, block_text, span_of, page_loop, assemble_page, html_table_to_text,
}

-- text[start:end]
abbrev pub slice : Str → ℕ → ℕ → Str
slice s start end = take (end - start) (drop start s)

drop-prefix : (pre s : Str) → drop (length pre) (pre ++ s) ≡ s
drop-prefix [] s = refl
drop-prefix (c ∷ pre) s = drop-prefix pre s

take-prefix : (t s : Str) → take (length t) (t ++ s) ≡ t
take-prefix [] s = refl
take-prefix (c ∷ t) s = ap (λ (l : Str). c ∷ l) (take-prefix t s)

slice-prefix : (pre t s : Str) → slice (pre ++ (t ++ s)) (length pre) (length pre + length t) ≡ t
slice-prefix pre t s =
    ap (λ (n : ℕ). take n (drop (length pre) (pre ++ (t ++ s)))) width
    ∙ ap (take (length t)) (drop-prefix pre (t ++ s))
    ∙ take-prefix t s
  where
    width : length pre + length t - length pre ≡ length t
    width = omega arith

-- No newline at the end.
abbrev pub Closed : Str → Type 0
Closed s = drop_end newline s ≡ s

drop_end-newline : (s : Str) → drop_end newline (s ++ 10 ∷ []) ≡ drop_end newline s
unfolding drop_end
drop_end-newline [] = refl
drop_end-newline (c ∷ s) = rw (drop_end-newline s)

Closed-cons : (c : ℕ) (s : Str) → nonempty s ≡ true → Closed s → Closed (c ∷ s)
unfolding drop_end
Closed-cons c [] ne h = absurd (ground arith)
Closed-cons c (d ∷ s) ne h = rw h

nonempty-append : (a b : Str) → nonempty b ≡ true → nonempty (a ++ b) ≡ true
nonempty-append [] b h = h
nonempty-append (c ∷ a) b h = refl

Closed-append : (a b : Str) → nonempty b ≡ true → Closed b → Closed (a ++ b)
Closed-append [] b ne h = h
Closed-append (c ∷ a) b ne h =
    Closed-cons c (a ++ b) (nonempty-append a b ne) (Closed-append a b ne h)

Closed-one : (c : ℕ) → Closed (if is_space c then [] else c ∷ [])
unfolding drop_end is_space
Closed-one c = ground arith

Closed-strip_step :
    (c : ℕ) (r : Str)
    → Closed r
    → Closed (elim r [ [] ↦ if is_space c then [] else c ∷ [] | d ∷ s ↦ c ∷ d ∷ s ])
Closed-strip_step c [] h = Closed-one c
Closed-strip_step c (d ∷ s) h = Closed-cons c (d ∷ s) refl h

pub Closed-empty : Closed []
unfolding drop_end
Closed-empty = refl

drop_end-le : (p : ℕ → Bool) (s : Str) → length (drop_end p s) ≤ length s
unfolding drop_end
drop_end-le p [] = omega arith
drop_end-le p (c ∷ s) = ground (arith, drop_end-le p s)

slice-last : (pre t : Str) → slice (pre ++ t) (length pre) (length pre + length t) ≡ t
slice-last pre t =
    ap (λ (s : Str). slice (pre ++ s) (length pre) (length pre + length t)) (sym (append-nil t))
    ∙ slice-prefix pre t []

-- What `rstrip` leaves ends in no newline.
rstrip-Closed : (s : Str) → Closed (rstrip s)
unfolding rstrip drop_end
rstrip-Closed [] = refl
rstrip-Closed (c ∷ s) = Closed-strip_step c (rstrip s) (rstrip-Closed s)

module _ (rows_of : Str → List (List Str)) where
  abbrev text_of : ℕ × Block → Str
  text_of b = block_text rows_of b.1

  -- The blocks that add text.
  unfoldable pub kept : List (ℕ × Block) → List (ℕ × Block)
  kept [] = []
  kept (b ∷ blocks) = let rest = kept blocks in if nonempty (text_of b) then b ∷ rest else rest

  -- One span for each block, in order, and each with its block's index, kind and box, the page, and
  -- the block's text at its characters.
  abbrev pub Marks : ℕ → Str → List BlockSpan → List (ℕ × Block) → Type 0
  Marks page text [] [] = Unit {0}
  Marks page text [] (b ∷ blocks) = ⊥
  Marks page text (s ∷ spans) [] = ⊥
  Marks page text (s ∷ spans) (b ∷ blocks) =
      ((s.block_index ≡ b.0)
        × (s.block_type ≡ b.1.type_name)
        × (s.bbox ≡ b.1.bbox)
        × (s.page_idx ≡ page)
        × (slice text s.char_start s.char_end ≡ block_text rows_of b.1))
      × Marks page text spans blocks

  -- What the loop adds to the buffer and to the spans.
  rendered : List (ℕ × Block) → Str
  rendered [] = []
  rendered (b ∷ blocks) = text_of b ++ (10 ∷ rendered blocks)

  joined : List (ℕ × Block) → Str
  joined [] = []
  joined (b ∷ []) = text_of b
  joined (b ∷ c ∷ blocks) = text_of b ++ (10 ∷ joined (c ∷ blocks))

  spans_from : ℕ → ℕ → List (ℕ × Block) → List BlockSpan
  spans_from page cursor [] = []
  spans_from page cursor (b ∷ blocks) =
      span_of rows_of page cursor b.0 b.1 ∷ spans_from page (cursor + length (text_of b) + 1) blocks

  page_loop-eq :
      (page : ℕ) (blocks : List (ℕ × Block)) (buffer : Str) (spans : List BlockSpan) (cursor : ℕ)
      → page_loop rows_of page blocks buffer spans cursor
        ≡ (buffer ++ rendered (kept blocks), spans ++ spans_from page cursor (kept blocks))
  unfolding page_loop rendered kept spans_from
  page_loop-eq page [] buffer spans cursor = simp append-nil
  page_loop-eq page ((i, b) ∷ blocks) buffer spans cursor =
      elim (Bool-cases (nonempty (block_text rows_of b))) [
        | inl e ↦ rw e (
            page_loop-eq page blocks (buffer ++ (block_text rows_of b ++ 10 ∷ []))
              (spans ++ span_of rows_of page cursor i b ∷ [])
              (cursor + length (block_text rows_of b) + 1)
            ∙ simp append_assoc)
        | inr e ↦ rw e (page_loop-eq page blocks buffer spans cursor)
      ]

  rendered-joined :
      (b : ℕ × Block) (blocks : List (ℕ × Block))
      → rendered (b ∷ blocks) ≡ joined (b ∷ blocks) ++ 10 ∷ []
  unfolding rendered joined
  rendered-joined b [] = refl
  rendered-joined b (c ∷ blocks) =
      ap (λ (s : Str). text_of b ++ (10 ∷ s)) (rendered-joined c blocks) ∙ simp append_assoc

  AllText : List (ℕ × Block) → Type 0
  AllText = All (λ b. (nonempty (text_of b) ≡ true) × Closed (text_of b))

  joined-nonempty :
      (b : ℕ × Block) (blocks : List (ℕ × Block))
      → AllText (b ∷ blocks)
      → (nonempty (joined (b ∷ blocks)) ≡ true) × Closed (joined (b ∷ blocks))
  unfolding joined AllText
  joined-nonempty b [] h = h.0
  joined-nonempty b (c ∷ blocks) h =
      let rest = joined-nonempty c blocks h.1 in
      (
        nonempty-append (text_of b) (10 ∷ joined (c ∷ blocks)) refl,
        Closed-append (text_of b) (10 ∷ joined (c ∷ blocks)) refl
            (Closed-cons 10 (joined (c ∷ blocks)) rest.0 rest.1),
      )

  Marks-from :
      (page : ℕ) (pre : Str) (blocks : List (ℕ × Block))
      → Marks page (pre ++ joined blocks) (spans_from page (length pre) blocks) blocks
  unfolding joined spans_from
  Marks-from page pre [] = tt
  Marks-from page pre (b ∷ []) = ((refl, refl, refl, refl, slice-last pre (text_of b)), tt)
  Marks-from page pre (b ∷ c ∷ blocks) = (
    (refl, refl, refl, refl, slice-prefix pre (text_of b) (10 ∷ joined (c ∷ blocks))),
    subst
        (λ (s : Str).
          Marks page s (spans_from page (length pre + length (text_of b) + 1) (c ∷ blocks))
            (c ∷ blocks))
        text_eq
        (subst
          (λ (n : ℕ).
            Marks page (longer ++ joined (c ∷ blocks)) (spans_from page n (c ∷ blocks))
              (c ∷ blocks))
          length_eq (Marks-from page longer (c ∷ blocks))),
  )
    where
      longer : Str
      longer = pre ++ (text_of b ++ 10 ∷ [])

      text_eq : longer ++ joined (c ∷ blocks) ≡ pre ++ (text_of b ++ (10 ∷ joined (c ∷ blocks)))
      text_eq = simp append_assoc

      length_eq : length longer ≡ length pre + length (text_of b) + 1
      length_eq =
          omega
            (arith, length-append pre (text_of b ++ 10 ∷ []), length-append (text_of b) (10 ∷ []))

  -- A table's text does not end in a newline.
  abbrev pub TablesClosed : List (ℕ × Block) → Type 0
  TablesClosed = All (λ b. Closed (html_table_to_text rows_of b.1.table_body))

  block_text-Closed :
      (b : Block) → Closed (html_table_to_text rows_of b.table_body) → Closed (block_text rows_of b)
  unfolding block_text
  block_text-Closed b h = elim (Bool-cases (str_eq b.type_name (codes "text"))) [
    | inl e ↦ rw e (rstrip-Closed b.text)
    | inr e ↦ rw e (elim (Bool-cases (str_eq b.type_name (codes "table"))) [
      | inl f ↦
          rw f (elim (Bool-cases (nonempty b.table_body)) [
            | inl g ↦ rw g h
            | inr g ↦ rw g Closed-empty
          ])
      | inr f ↦ rw f Closed-empty
    ])
  ]

  kept-AllText : (blocks : List (ℕ × Block)) → TablesClosed blocks → AllText (kept blocks)
  unfolding kept AllText
  kept-AllText [] h = tt
  kept-AllText (b ∷ blocks) h = elim (Bool-cases (nonempty (text_of b))) [
    | inl e ↦ rw e ((e, block_text-Closed b.1 h.0), kept-AllText blocks h.1)
    | inr e ↦ rw e (kept-AllText blocks h.1)
  ]

  page_text :
      (blocks : List (ℕ × Block))
      → AllText blocks
      → drop_end newline (rendered blocks) ≡ joined blocks
  unfolding rendered joined
  page_text [] h = Closed-empty
  page_text (b ∷ blocks) h =
      ap (drop_end newline) (rendered-joined b blocks)
      ∙ drop_end-newline (joined (b ∷ blocks))
      ∙ (joined-nonempty b blocks h).1

  -- The text of a page at the characters of each span is the text of the span's block, where no
  -- table's text ends in a newline; the spans are those of the blocks that add text, in their
  -- order, with the blocks' indexes, kinds and boxes and the page's number.
  pub assemble_page-Marks :
      (page : ℕ) (blocks : List (ℕ × Block))
      → TablesClosed blocks
      → let p = assemble_page rows_of (page, blocks) in
        Marks page p.text p.block_spans (kept blocks)
  unfolding assemble_page
  assemble_page-Marks page blocks h =
      rw (page_loop-eq page blocks [] [] 0)
        (rw (page_text (kept blocks) (kept-AllText blocks h)) (Marks-from page [] (kept blocks)))

  -- A page of one table whose text does end in a newline loses it: its span ends behind the end of
  -- the page's text.
  pub table_overrun :
      (page i : ℕ) (b : Block) (s : Str)
      → block_text rows_of b ≡ s ++ 10 ∷ []
      → let p = assemble_page rows_of (page, (i, b) ∷ []) in
        All (λ span. length p.text < span.char_end) p.block_spans × (length p.block_spans ≡ 1)
  unfolding assemble_page page_loop
  table_overrun page i b s e =
      rw (e, nonempty-append s (10 ∷ []) refl)
        (
          (
            omega (
              arith,
              ap length (drop_end-newline (s ++ 10 ∷ [])),
              ap length (drop_end-newline s),
              drop_end-le newline s,
              length-append s (10 ∷ []),
            ),
            tt,
          ),
          refl,
        )
