-- ===== src/Search/Examples.antt =====
-- The path search's theorems on a concrete graph.
use graphrag_agent.Base.{◌+◌, ◌*◌, ◌≤◌, ◌<◌, ◌≡◌, refl, List, [], ◌∷◌, length, All, arith}
use graphrag_agent.Base.Text.{Str, codes, str_eq, elem}
use graphrag_agent.Search.Paths.{
  Edge, FoundPath, search_path_for_engine, paths_found, max_paths, adjacent, extend, search_loop,
}
use graphrag_agent.Search.Walks.{Walk}
use graphrag_agent.Search.Found.{search_path_for_engine-AreWalks}
use graphrag_agent.Search.Termination.{search_path_for_engine-ends}

abbrev alice : Str
alice = codes "a"

abbrev billing : Str
billing = codes "b"

abbrev carol : Str
carol = codes "c"

abbrev three_nodes : List Str
three_nodes = alice ∷ billing ∷ carol ∷ []

abbrev two_edges : List Edge
two_edges =
    record { source = alice; target = billing; relation = codes "USES" }
    ∷ record { source = carol; target = billing; relation = codes "OWNS" }
    ∷ []

abbrev one_path : FoundPath
one_path = record { nodes = three_nodes; edges = two_edges }

found : search_path_for_engine 30 three_nodes two_edges alice carol 2 ≡ paths_found (one_path ∷ [])
unfolding search_path_for_engine search_loop adjacent extend elem str_eq
found = refl

one_hop : search_path_for_engine 30 three_nodes two_edges alice carol 1 ≡ paths_found []
unfolding search_path_for_engine search_loop adjacent extend elem str_eq
one_hop = refl

search_path_for_engine-AreWalks_example :
    All
      (λ p. Walk three_nodes two_edges alice carol p.nodes p.edges × (length p.edges ≤ 2))
      (one_path ∷ [])
search_path_for_engine-AreWalks_example =
    search_path_for_engine-AreWalks 30 three_nodes two_edges alice carol 2 (one_path ∷ []) found

search_path_for_engine-ends_example :
    (ps : List FoundPath) × (search_path_for_engine 30 three_nodes two_edges alice carol 2
      ≡ paths_found ps)
    × (length ps < max_paths + 2 * length two_edges)
unfolding elem str_eq
search_path_for_engine-ends_example =
    search_path_for_engine-ends 30 three_nodes two_edges alice carol 2 refl refl (omega arith)
