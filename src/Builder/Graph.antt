-- ===== src/Builder/Graph.antt =====
-- `build_kg` and `extractions_to_records` of kg_builder.py. Unicode's `str.lower` is a parameter.
use graphrag_agent.Base.{
  ℕ, zero, suc, ◌+◌, Bool, ◌&&◌, Option, none, some, List, [], ◌∷◌, ◌++◌, if◌then◌else◌, ◌==◌, ltb,
  length, take, keep_if, not, get_elem?,
}
use Prim.Native.Nat.{◌/◌, ◌%◌}
use graphrag_agent.Base.Int.{ℤ, pos, ltb_ℤ}
use graphrag_agent.Base.Text.{Str, codes, str_eq, elem}
use graphrag_agent.Assembler.Pages.{PageText}
use graphrag_agent.Cooccurrence.Pairs.{Page, Edge, build_sparse_cooccurrence_edges}

-- lx.data.Extraction; a char_interval is its two positions, each of which may be None
pub record Extraction : Type 0 where
  pub text : Str
  pub kind : Str
  pub alignment : Option Str
  pub interval : Option (Option ℤ × Option ℤ)

pub record Entity : Type 0 where
  pub name : Str
  pub type_name : Str
  pub char_start : Option ℤ
  pub char_end : Option ℤ
  pub confidence : Str
  pub page : ℕ
  pub source_doc : Str

pub record Node : Type 0 where
  pub id : Str
  pub entity : Entity

abbrev pub accepted_alignments : List Str
accepted_alignments = codes "match_exact" ∷ codes "match_greater" ∷ codes "match_lesser" ∷ []

abbrev pub start_of : Option (Option ℤ × Option ℤ) → Option ℤ
start_of none = none
start_of (some i) = i.0

abbrev pub end_of : Option (Option ℤ × Option ℤ) → Option ℤ
end_of none = none
end_of (some i) = i.1

abbrev pub entity_of : ℕ → Str → Extraction → Str → Entity
entity_of page doc ext status = record {
  name = ext.text;
  type_name = ext.kind;
  char_start = start_of ext.interval;
  char_end = end_of ext.interval;
  confidence = status;
  page = page;
  source_doc = doc;
}

-- An extraction whose alignment is accepted is one more entity.
unfoldable pub keep_accepted : Option Str → (Str → Entity) → List Entity → List Entity
keep_accepted none entity rest = rest
keep_accepted (some status) entity rest =
    if elem status accepted_alignments then entity status ∷ rest else rest

-- Phase 1, for one page
unfoldable pub page_entities : ℕ → Str → List Extraction → List Entity
unfolding keep_accepted
page_entities page doc [] = []
page_entities page doc (ext ∷ exts) =
    keep_accepted ext.alignment (entity_of page doc ext) (page_entities page doc exts)

-- zip(pages, annotated_docs)
unfoldable pub raw_entities : List PageText → List (List Extraction) → Str → List Entity
unfolding page_entities
raw_entities [] docs doc = []
raw_entities (p ∷ pages) [] doc = []
raw_entities (p ∷ pages) (exts ∷ docs) doc =
    page_entities p.page_idx doc exts ++ raw_entities pages docs doc

-- str(n)
unfoldable pub digits : ℕ → ℕ → Str → Str
digits zero n s = s
digits (suc fuel) n s =
    let rest = digits fuel (n / 10) ((b'0' + n % 10) ∷ s) in
    if ltb n 10 then (b'0' + n) ∷ s else rest

abbrev pub decimal : ℕ → Str
decimal n = digits (suc n) n []

abbrev pub Key : Type 0
Key = Str × Str

abbrev pub key_eq : Key → Key → Bool
key_eq a b = str_eq a.0 b.0 && str_eq a.1 b.1

unfoldable pub lookup : Key → List (Key × ℕ) → Option ℕ
lookup key [] = none
lookup key ((k, i) ∷ seen) = if key_eq key k then some i else lookup key seen

-- page_node_positions: page to node index to position
abbrev pub Positions : Type 0
Positions = List (ℕ × List (ℕ × ℤ))

unfoldable pub note_index : ℕ → ℤ → List (ℕ × ℤ) → List (ℕ × ℤ)
note_index i p [] = (i, p) ∷ []
note_index i p ((j, q) ∷ rest) =
    if j == i then (j, if ltb_ℤ p q then p else q) ∷ rest else (j, q) ∷ note_index i p rest

unfoldable pub note_page : ℕ → ℕ → ℤ → Positions → Positions
unfolding note_index
note_page page i p [] = (page, note_index i p []) ∷ []
note_page page i p ((at, places) ∷ rest) =
    if at == page
    then (at, note_index i p places) ∷ rest
    else (at, places) ∷ note_page page i p rest

pub record State : Type 0 where
  pub seen : List (Key × ℕ)
  pub nodes : List Node
  pub positions : Positions

abbrev pub position_of : Option ℤ → ℕ → ℤ
position_of none order = pos order
position_of (some p) order = p

module _ (lower_of : Str → Str) where
  abbrev pub key_of : Entity → Key
  key_of e = (lower_of e.name, e.type_name)

  unfoldable pub node_id : Entity → ℕ → Str
  unfolding digits
  node_id e i =
      take 4 (lower_of e.type_name)
      ++ codes "_"
      ++ take 12 (keep_if (λ c. not (c == b' ')) (lower_of e.name))
      ++ codes "_"
      ++ decimal i

  abbrev pub with_node : Entity → State → State
  with_node e s = record {
    seen = s.seen ++ (key_of e, length s.nodes) ∷ [];
    nodes = s.nodes ++ record { id = node_id e (length s.nodes); entity = e } ∷ [];
    positions = s.positions;
  }

  abbrev pub with_position : ℕ → ℕ → Entity → State → State
  with_position i order e s = record s {
    positions = note_page e.page i (position_of e.char_start order) s.positions;
  }

  -- Phase 2, for one entity
  unfoldable pub add_entity : ℕ → Entity → State → State
  unfolding lookup note_page
  add_entity order e s = elim (lookup (key_of e) s.seen) [
    | none ↦ with_position (length s.nodes) order e (with_node e s)
    | some i ↦ with_position i order e s
  ]

  unfoldable pub add_entities : List Entity → ℕ → State → State
  unfolding add_entity
  add_entities [] order s = s
  add_entities (e ∷ entities) order s = add_entities entities (suc order) (add_entity order e s)

-- nodes[node_idx]["id"], where an index out of range raises: `none`
unfoldable pub page_ids : List Node → List (ℕ × ℤ) → Option (List (ℤ × Str))
page_ids nodes [] = some []
page_ids nodes ((i, p) ∷ places) = elim (get_elem? nodes i) [
  | none ↦ none
  | some x ↦ elim (page_ids nodes places) [ none ↦ none | some rest ↦ some ((p, x.id) ∷ rest) ]
]

unfoldable pub positioned_nodes : List Node → Positions → Option (List Page)
unfolding page_ids
positioned_nodes nodes [] = some []
positioned_nodes nodes ((page, places) ∷ rest) = elim (page_ids nodes places) [
  | none ↦ none
  | some ids ↦ elim (positioned_nodes nodes rest) [
    | none ↦ none
    | some pages ↦ some ((pos page, ids) ∷ pages)
  ]
]

abbrev pub empty_state : State
empty_state = record { seen = []; nodes = []; positions = [] }

abbrev pub linked : Str → List Node → Option (List Page) → Option (List Node × List Edge)
linked doc nodes none = none
linked doc nodes (some pages) = some (nodes, build_sparse_cooccurrence_edges pages doc)

unfoldable pub build_kg :
    (Str → Str) → List PageText → List (List Extraction) → Str → Option (List Node × List Edge)
unfolding raw_entities add_entities positioned_nodes build_sparse_cooccurrence_edges
build_kg lower_of pages docs doc =
    let s = add_entities lower_of (raw_entities pages docs doc) 0 empty_state in
    linked doc s.nodes (positioned_nodes s.nodes s.positions)
