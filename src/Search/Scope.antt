-- ===== src/Search/Scope.antt =====
-- The searches of search_service.py over the graph repository, with their scope. What the
-- repository answers is an argument.
use graphrag_agent.Base.{
  ℕ, max, Bool, false, ◌&&◌, Option, none, some, List, [], ◌∷◌, ◌++◌, if◌then◌else◌, length, take,
  keep_if, all,
}
use graphrag_agent.Base.Text.{Str, nonempty, elem}

-- _allowed_node_ids: `export` gives the ids of the nodes that export_kg returns for a document
unfoldable pub allowed_node_ids : (Str → List Str) → List Str → List Str
allowed_node_ids export [] = []
allowed_node_ids export (doc ∷ docs) = keep_if nonempty (export doc) ++ allowed_node_ids export docs

pub record Item : Type 0 where
  pub id : Str
  pub source_doc : Option Str

pub record Found : Type 0 where
  pub items : List Item
  pub total : ℕ

abbrev pub in_scope : List Str → Item → Bool
in_scope allowed item = elim item.source_doc [ none ↦ false | some doc ↦ elem doc allowed ]

abbrev pub scope_items : ℕ → Option (List Str) → Found → Found
scope_items limit none result = result
scope_items limit (some allowed) result = record {
  items = take limit (keep_if (in_scope allowed) result.items);
  total = length (keep_if (in_scope allowed) result.items);
}

-- `answer` is the repository's search, at the limit that it is given
unfoldable pub search_entities : (ℕ → Found) → ℕ → Option (List Str) → Found
search_entities answer limit allowed = scope_items limit allowed (answer (max limit 100))

pub record Paths : Type 0 where
  pub paths : List (List Str)
  pub total_paths : ℕ

abbrev pub all_in : List Str → List Str → Bool
all_in nodes path = all (λ id. elem id nodes) path

abbrev pub scope_paths : List Str → Option Paths → Option Paths
scope_paths nodes none = none
scope_paths nodes (some result) = some (record {
  paths = keep_if (all_in nodes) result.paths;
  total_paths = length (keep_if (all_in nodes) result.paths);
})

unfoldable pub search_path :
    (Str → List Str) → Option Paths → Str → Str → Option (List Str) → Option Paths
unfolding allowed_node_ids
search_path export result from to none = result
search_path export result from to (some docs) =
    let nodes = allowed_node_ids export docs in
    if elem from nodes && elem to nodes then scope_paths nodes result else none

pub record Link : Type 0 where
  pub source : Str
  pub target : Str

pub record Subgraph : Type 0 where
  pub matched_nodes : List Str
  pub subgraph_edges : List Link
  pub total_nodes : ℕ

abbrev pub link_in : List Str → Link → Bool
link_in nodes e = elem e.source nodes && elem e.target nodes

unfoldable pub search_graph : (Str → List Str) → Subgraph → Option (List Str) → Subgraph
unfolding allowed_node_ids
search_graph export result none = result
search_graph export result (some docs) =
    let nodes = allowed_node_ids export docs in
    let matched = keep_if (λ id. elem id nodes) result.matched_nodes in
    record {
      matched_nodes = matched;
      subgraph_edges = keep_if (link_in nodes) result.subgraph_edges;
      total_nodes = length matched;
    }
