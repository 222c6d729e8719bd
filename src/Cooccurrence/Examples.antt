-- ===== src/Cooccurrence/Examples.antt =====
-- The theorems on co-occurrence links at concrete pages and graphs.
use graphrag_agent.Base.{◌≡◌, refl, List, [], ◌∷◌, All}
use graphrag_agent.Base.Int.{ℤ, pos}
use graphrag_agent.Base.Text.{Str, codes, str_eq, str_lt}
use graphrag_agent.Base.Sort.{Unique}
use graphrag_agent.Cooccurrence.Pairs.{
  ordered, neighbor_pairs, build_sparse_cooccurrence_edges, edge_of,
}
use graphrag_agent.Cooccurrence.Soundness.{IsEdge, edge_eq, build_sparse_cooccurrence_edges_lem}
use graphrag_agent.Cooccurrence.Layout.{Node, Edge, number, missing, select_sparse_layout_edges}

abbrev small_page : List (ℤ × Str)
small_page = (pos 7, codes "b") ∷ (pos 3, codes "a") ∷ (pos 9, codes "b") ∷ []

built :
    build_sparse_cooccurrence_edges ((pos 0, small_page) ∷ []) (codes "d")
    ≡ edge_of (codes "d") (record { page = pos 0; left = codes "a"; right = codes "b" }) ∷ []
unfolding build_sparse_cooccurrence_edges ordered str_lt str_eq
built = refl

build_sparse_cooccurrence_edges_lem_example :
    All
      (IsEdge ((pos 0, small_page) ∷ []) (codes "d"))
      (build_sparse_cooccurrence_edges ((pos 0, small_page) ∷ []) (codes "d"))
    × Unique edge_eq (build_sparse_cooccurrence_edges ((pos 0, small_page) ∷ []) (codes "d"))
build_sparse_cooccurrence_edges_lem_example =
    build_sparse_cooccurrence_edges_lem ((pos 0, small_page) ∷ []) (codes "d")

-- Thirteen entities, one more than a clique may have.
abbrev long_page : List (ℤ × Str)
long_page =
    (pos 0, codes "a")
    ∷ (pos 1, codes "b")
    ∷ (pos 2, codes "c")
    ∷ (pos 3, codes "d")
    ∷ (pos 4, codes "e")
    ∷ (pos 5, codes "f")
    ∷ (pos 6, codes "g")
    ∷ (pos 7, codes "h")
    ∷ (pos 8, codes "i")
    ∷ (pos 9, codes "j")
    ∷ (pos 10, codes "k")
    ∷ (pos 11, codes "l")
    ∷ (pos 12, codes "m")
    ∷ []

abbrev uses : Edge
uses = record {
  source = codes "a";
  target = codes "b";
  relation = codes "uses";
  doc_id = codes "d";
  page = number (pos 1);
}

abbrev near : Edge
near = record uses { relation = [] }

abbrev graph_nodes : List Node
graph_nodes =
    record { id = codes "a"; source_doc = codes "d"; char_start = number (pos 4) }
    ∷ record { id = codes "b"; source_doc = codes "d"; char_start = missing }
    ∷ []

shown : select_sparse_layout_edges graph_nodes (uses ∷ near ∷ near ∷ []) ≡ uses ∷ near ∷ []
unfolding select_sparse_layout_edges str_eq str_lt neighbor_pairs
shown = refl
