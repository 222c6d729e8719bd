-- ===== src/Perimeter/Visibility.antt =====
-- public_access.py: which documents a request may see.
use graphrag_agent.Base.{
  ◌≡◌, refl, Bool, true, not, ◌&&◌, ◌||◌, Option, none, some, List, [], ◌∷◌, ◌++◌, map,
  if◌then◌else◌, arith, keep_if, any,
}
use graphrag_agent.Base.Text.{
  Str, codes, str_eq, nonempty, strip, elem, elem-append, or_else, split_on,
}

abbrev header_or_empty : Option Str → Str
header_or_empty none = []
header_or_empty (some h) = h

-- {item.strip() for item in ids.split(",") if item.strip()}
unfoldable pub allowlist : Str → List Str
unfolding split_on strip
allowlist configured = keep_if nonempty (map strip (split_on b',' [] configured))

-- `public_document_ids`: `none` is full access
unfoldable pub public_document_ids : Option Str → Str → Option (List Str)
unfolding allowlist
public_document_ids header configured =
    if str_eq (strip (header_or_empty header)) (codes "1")
    then some (allowlist configured)
    else none

unfoldable pub document_is_visible : Str → Option (List Str) → Bool
document_is_visible doc none = true
document_is_visible doc (some ids) = elem doc ids

-- A stored document; a missing owner is empty.
pub record Document : Type 0 where
  pub doc_id : Str
  pub owner_id : Str

abbrev pub is_owned : Str → Document → Bool
is_owned owner d = nonempty d.doc_id && str_eq (or_else d.owner_id (codes "default")) owner

abbrev id_of : Document → Str
id_of d = d.doc_id

-- `visible_document_ids`, with the repository's documents
unfoldable pub visible_document_ids : Option Str → Str → Str → List Document → Option (List Str)
unfolding public_document_ids
visible_document_ids header configured owner documents =
    elim (public_document_ids header configured) [
      | none ↦ none
      | some ids ↦
          if nonempty owner
          then some (ids ++ map id_of (keep_if (is_owned owner) documents))
          else some ids
    ]

elem-owned :
    (doc owner : Str) (documents : List Document)
    → elem doc (map id_of (keep_if (is_owned owner) documents))
      ≡ any (λ d. is_owned owner d && str_eq doc d.doc_id) documents
unfolding elem
elem-owned doc owner [] = refl
elem-owned doc owner (d ∷ documents) = ground (arith, elem-owned doc owner documents)

-- A request with the public marker sees exactly the documents of the allowlist and, if it has an
-- owner, that owner's; with no allowlist and no owner it sees none. Without the marker it sees all.
pub document_is_visible_lem :
    (header : Option Str) (configured owner doc : Str) (documents : List Document)
    → document_is_visible doc (visible_document_ids header configured owner documents) ≡ (
        not (str_eq (strip (header_or_empty header)) (codes "1"))
        || (elem doc (allowlist configured)
            || (nonempty owner && any (λ d. is_owned owner d && str_eq doc d.doc_id) documents)))
unfolding document_is_visible visible_document_ids public_document_ids
document_is_visible_lem header configured owner doc documents = ground (
  arith,
  elem-append doc (allowlist configured) (map id_of (keep_if (is_owned owner) documents)),
  elem-owned doc owner documents,
)
