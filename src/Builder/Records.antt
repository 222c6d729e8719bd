-- ===== src/Builder/Records.antt =====
-- `extractions_to_records` of kg_builder.py, beside the entities that build_kg collects.
use graphrag_agent.Base.{
  ℕ, ◌≡◌, refl, ap, ◌∙◌, Option, none, some, List, [], ◌∷◌, ◌++◌, inl, inr, Bool-cases,
}
use graphrag_agent.Base.Int.{ℤ}
use graphrag_agent.Base.Text.{Str, elem}
use graphrag_agent.Assembler.Pages.{PageText}
use graphrag_agent.Builder.Graph.{
  Extraction, Entity, accepted_alignments, start_of, end_of, page_entities, raw_entities, entity_of,
  keep_accepted,
}

pub record Record : Type 0 where
  pub text : Str
  pub type_name : Str
  pub char_start : Option ℤ
  pub char_end : Option ℤ
  pub alignment : Option Str
  pub page : ℕ
  pub doc_id : Str

abbrev pub record_of : ℕ → Str → Extraction → Record
record_of page doc ext = record {
  text = ext.text;
  type_name = ext.kind;
  char_start = start_of ext.interval;
  char_end = end_of ext.interval;
  alignment = ext.alignment;
  page = page;
  doc_id = doc;
}

unfoldable pub page_records : ℕ → Str → List Extraction → List Record
page_records page doc [] = []
page_records page doc (ext ∷ exts) = record_of page doc ext ∷ page_records page doc exts

unfoldable pub extractions_to_records : List PageText → List (List Extraction) → Str → List Record
unfolding page_records
extractions_to_records [] docs doc = []
extractions_to_records (p ∷ pages) [] doc = []
extractions_to_records (p ∷ pages) (exts ∷ docs) doc =
    page_records p.page_idx doc exts ++ extractions_to_records pages docs doc

-- A record as an entity, once its alignment is known.
abbrev entity_from : Record → Str → Entity
entity_from r status = record {
  name = r.text;
  type_name = r.type_name;
  char_start = r.char_start;
  char_end = r.char_end;
  confidence = status;
  page = r.page;
  source_doc = r.doc_id;
}

-- The records with an accepted alignment, as entities.
unfoldable pub accepted : List Record → List Entity
unfolding keep_accepted
accepted [] = []
accepted (r ∷ records) = keep_accepted r.alignment (entity_from r) (accepted records)

keep_accepted-append :
    (alignment : Option Str) (entity : Str → Entity) (xs ys : List Entity)
    → keep_accepted alignment entity (xs ++ ys) ≡ keep_accepted alignment entity xs ++ ys
unfolding keep_accepted
keep_accepted-append none entity xs ys = refl
keep_accepted-append (some status) entity xs ys =
    elim (Bool-cases (elem status accepted_alignments)) [ inl e ↦ rw e refl | inr e ↦ rw e refl ]

accepted-append : (xs ys : List Record) → accepted (xs ++ ys) ≡ accepted xs ++ accepted ys
unfolding accepted
accepted-append [] ys = refl
accepted-append (r ∷ xs) ys =
    ap (keep_accepted r.alignment (entity_from r)) (accepted-append xs ys)
    ∙ keep_accepted-append r.alignment (entity_from r) (accepted xs) (accepted ys)

accepted-page_records :
    (page : ℕ) (doc : Str) (exts : List Extraction)
    → accepted (page_records page doc exts) ≡ page_entities page doc exts
unfolding accepted page_records page_entities
accepted-page_records page doc [] = refl
accepted-page_records page doc (ext ∷ exts) =
    ap (keep_accepted ext.alignment (entity_of page doc ext)) (accepted-page_records page doc exts)

-- The entities that the graph is built from are, in their order, the exported records whose
-- alignment is one of the accepted ones.
pub accepted-extractions_to_records :
    (pages : List PageText) (docs : List (List Extraction)) (doc : Str)
    → accepted (extractions_to_records pages docs doc) ≡ raw_entities pages docs doc
unfolding extractions_to_records raw_entities accepted
accepted-extractions_to_records [] docs doc = refl
accepted-extractions_to_records (p ∷ pages) [] doc = refl
accepted-extractions_to_records (p ∷ pages) (exts ∷ docs) doc =
    accepted-append (page_records p.page_idx doc exts) (extractions_to_records pages docs doc)
    ∙ rw (accepted-page_records p.page_idx doc exts, accepted-extractions_to_records pages docs doc)
        refl
