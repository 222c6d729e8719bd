-- ===== src/Assembler/Groups.antt =====
-- Every block comes to the page that it names, and the counts by kind count every block.
use graphrag_agent.Base.{
  ℕ, suc, ◌+◌, ◌≡◌, refl, List, [], ◌∷◌, ◌==◌, length, length-append, All, All-append, arith,
  Bool-cases, inl, inr,
}
use graphrag_agent.Base.Text.{Str}
use graphrag_agent.Assembler.Pages.{Block, add_block, group_blocks, add_count, count_blocks_by_type}

abbrev Groups : Type 0
Groups = List (ℕ × List (ℕ × Block))

-- The blocks of all groups.
abbrev pub total : Groups → ℕ
total [] = 0
total (g ∷ groups) = length g.1 + total groups

-- The blocks of a group name its page.
abbrev pub Belongs : ℕ × List (ℕ × Block) → Type 0
Belongs g = All (λ b. b.1.page_idx ≡ g.0) g.1

add_block-total :
    (page : ℕ) (b : ℕ × Block) (groups : Groups)
    → total (add_block page b groups) ≡ suc (total groups)
unfolding add_block
add_block-total page b [] = omega arith
add_block-total page b ((p, blocks) ∷ groups) =
    ground (arith, add_block-total page b groups, length-append blocks (b ∷ []))

add_block-Belongs :
    (page : ℕ) (b : ℕ × Block) (groups : Groups)
    → b.1.page_idx ≡ page
    → All Belongs groups
    → All Belongs (add_block page b groups)
unfolding add_block
add_block-Belongs page b [] e h = ((e, tt), tt)
add_block-Belongs page b ((p, blocks) ∷ groups) e h = elim (Bool-cases (p == page)) [
  | inl same ↦
      rw same
        (All-append (λ c. c.1.page_idx ≡ p) blocks (b ∷ []) h.0 (ground (arith, same, e), tt), h.1)
  | inr other ↦ rw other (h.0, add_block-Belongs page b groups e h.1)
]

-- Grouping loses no block and makes none up: the groups have as many blocks as came in, and each
-- block stands in the group of the page that it names.
pub group_blocks_lem :
    (i : ℕ) (blocks : List Block) (groups : Groups)
    → All Belongs groups
    → (total (group_blocks i blocks groups) ≡ length blocks + total groups)
      × All Belongs (group_blocks i blocks groups)
unfolding group_blocks
group_blocks_lem i [] groups h = (omega arith, h)
group_blocks_lem i (b ∷ blocks) groups h =
    let rest =
      group_blocks_lem (suc i) blocks (add_block b.page_idx (i, b) groups)
        (add_block-Belongs b.page_idx (i, b) groups refl h) in
    (omega (arith, rest.0, add_block-total b.page_idx (i, b) groups), rest.1)

abbrev pub counted : List (Str × ℕ) → ℕ
counted [] = 0
counted ((k, n) ∷ counts) = n + counted counts

add_count-counted :
    (k : Str) (counts : List (Str × ℕ)) → counted (add_count k counts) ≡ suc (counted counts)
unfolding add_count
add_count-counted k [] = omega arith
add_count-counted k ((j, n) ∷ counts) = ground (arith, add_count-counted k counts)

-- The counts by kind add up to the number of blocks.
pub counted-count_blocks :
    (blocks : List Block) (counts : List (Str × ℕ))
    → counted (count_blocks_by_type blocks counts) ≡ length blocks + counted counts
unfolding count_blocks_by_type
counted-count_blocks [] counts = omega arith
counted-count_blocks (b ∷ blocks) counts = omega (
  arith,
  counted-count_blocks blocks (add_count b.type_name counts),
  add_count-counted b.type_name counts,
)
