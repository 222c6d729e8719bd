-- ===== src/Search/ScopeExamples.antt =====
-- The scoped searches' theorems where one document exports two nodes.
use graphrag_agent.Base.{ℕ, ◌≡◌, refl, none, some, List, [], ◌∷◌, length, All}
use graphrag_agent.Base.Text.{Str, codes, str_eq, elem}
use graphrag_agent.Search.Scope.{Found, Paths, Subgraph, allowed_node_ids, search_path}
use graphrag_agent.Search.Scoping.{IsExported, search_path-InScope}

abbrev exports : Str → List Str
exports doc = codes "n1" ∷ codes "n2" ∷ []

abbrev only_d1 : List Str
only_d1 = codes "d1" ∷ []

abbrev answers : ℕ → Found
answers limit = record {
  items =
      record { id = codes "n1"; source_doc = some (codes "d1") }
      ∷ record { id = codes "n9"; source_doc = some (codes "d2") }
      ∷ record { id = codes "n8"; source_doc = none }
      ∷ [];
  total = 3;
}

abbrev two_paths : Paths
two_paths = record {
  paths = (codes "n1" ∷ codes "n9" ∷ codes "n2" ∷ []) ∷ (codes "n1" ∷ codes "n2" ∷ []) ∷ [];
  total_paths = 2;
}

abbrev one_left : Paths
one_left = record { paths = (codes "n1" ∷ codes "n2" ∷ []) ∷ []; total_paths = 1 }

search_path-InScope_example :
    IsExported exports only_d1 (codes "n1")
    × IsExported exports only_d1 (codes "n2")
    × All (All (IsExported exports only_d1)) one_left.paths
    × (one_left.total_paths ≡ length one_left.paths)
unfolding search_path allowed_node_ids elem str_eq
search_path-InScope_example =
    search_path-InScope exports (some two_paths) (codes "n1") (codes "n2") only_d1 one_left refl

abbrev matched : Subgraph
matched = record {
  matched_nodes = codes "n1" ∷ codes "n9" ∷ [];
  subgraph_edges = [];
  total_nodes = 2;
}
