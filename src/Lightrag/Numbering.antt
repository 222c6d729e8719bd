-- ===== src/Lightrag/Numbering.antt =====
-- What the pages that types.py accepts have in common.
use graphrag_agent.Base.{
  ℕ, suc, ◌≡◌, refl, true, false, List, [], ◌∷◌, any, arith, All, inl, inr, Bool-cases,
}
use graphrag_agent.Base.Int.{ℤ, pos, ltb_ℤ, eqb_ℤ}
use graphrag_agent.Base.Text.{nonempty}
use graphrag_agent.Base.Sort.{Unique}
use graphrag_agent.Lightrag.Pages.{
  PageItem, PageInput, Coerced, not_positive, not_unique, no_page_text, coerced, read_item,
  with_page, coerce_loop, checked_pages, coerce_pages,
}

abbrev pub page_numbers : List PageInput → List ℤ
page_numbers [] = []
page_numbers (p ∷ pages) = p.page ∷ page_numbers pages

-- A page that is accepted: its number is not below 1, it has text, and it was not seen before.
pub record IsPage (seen : List ℤ) (p : PageInput) : Type 0 where
  pub positive : ltb_ℤ p.page (pos 1) ≡ false
  pub written : nonempty p.content ≡ true
  pub fresh : any (eqb_ℤ p.page) seen ≡ false

-- Accepted pages have different numbers.
abbrev pub ArePages : List ℤ → Coerced → Type 0
ArePages seen (coerced pages) = All (IsPage seen) pages × Unique eqb_ℤ (page_numbers pages)
ArePages seen other = Unit {0}

-- What coerce_pages gives: an error, or at least one page, with different numbers from 1 on.
abbrev pub AreAccepted : Coerced → Type 0
AreAccepted (coerced []) = ⊥
AreAccepted (coerced (p ∷ pages)) = ArePages [] (coerced (p ∷ pages))
AreAccepted other = Unit {0}

eqb_ℤ_sym : (a b : ℤ) → eqb_ℤ a b ≡ eqb_ℤ b a
eqb_ℤ_sym a b = ground arith

apart_from_rest :
    (n : ℤ) (seen : List ℤ) (pages : List PageInput)
    → All (IsPage (n ∷ seen)) pages
    → (any (eqb_ℤ n) (page_numbers pages) ≡ false) × All (IsPage seen) pages
apart_from_rest n seen [] h = (refl, tt)
apart_from_rest n seen (p ∷ pages) h =
    let rest = apart_from_rest n seen pages h.1 in
    let own = h.0.fresh in
    (
      ground (arith, rest.0, own, eqb_ℤ_sym n p.page),
      (
        record { positive = h.0.positive; written = h.0.written; fresh = ground (arith, own) },
        rest.1,
      ),
    )

with_page-ArePages :
    (seen : List ℤ) (p : PageInput) (r : Coerced)
    → IsPage seen p
    → ArePages (p.page ∷ seen) r
    → ArePages seen (with_page p r)
with_page-ArePages seen p not_positive h k = tt
with_page-ArePages seen p not_unique h k = tt
with_page-ArePages seen p no_page_text h k = tt
with_page-ArePages seen p (coerced pages) h k =
    let rest = apart_from_rest p.page seen pages k.0 in ((h, rest.1), (rest.0, k.1))

coerce_loop-ArePages :
    (position : ℕ) (seen : List ℤ) (items : List PageItem)
    → ArePages seen (coerce_loop position seen items)
unfolding coerce_loop
coerce_loop-ArePages position seen [] = (tt, tt)
coerce_loop-ArePages position seen (item ∷ items) =
    let p = read_item position item in
    elim (Bool-cases (nonempty p.content)) [
      | inr empty ↦ rw empty (coerce_loop-ArePages (suc position) seen items)
      | inl text ↦ elim (Bool-cases (ltb_ℤ p.page (pos 1))) [
        | inl low ↦ rw (text, low) tt
        | inr high ↦ elim (Bool-cases (any (eqb_ℤ p.page) seen)) [
          | inl old ↦ rw (text, high, old) tt
          | inr new ↦
              rw (text, high, new)
                (with_page-ArePages seen p (coerce_loop (suc position) (p.page ∷ seen) items)
                  (record { positive = high; written = text; fresh = new })
                  (coerce_loop-ArePages (suc position) (p.page ∷ seen) items))
        ]
      ]
    ]

checked_pages-AreAccepted : (r : Coerced) → ArePages [] r → AreAccepted (checked_pages r)
checked_pages-AreAccepted not_positive h = tt
checked_pages-AreAccepted not_unique h = tt
checked_pages-AreAccepted no_page_text h = tt
checked_pages-AreAccepted (coerced []) h = tt
checked_pages-AreAccepted (coerced (p ∷ pages)) h = h

-- Whatever the items, coerce_pages gives an error, or at least one page, every page with text and a
-- number from 1 on, and no two with one number.
pub coerce_pages-AreAccepted : (items : List PageItem) → AreAccepted (coerce_pages items)
coerce_pages-AreAccepted items =
    checked_pages-AreAccepted (coerce_loop 1 [] items) (coerce_loop-ArePages 1 [] items)
