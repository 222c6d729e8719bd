-- ===== src/Search/Found.antt =====
-- What search_path_for_engine of search_service.py returns.
use graphrag_agent.Base.{
  ℕ, zero, suc, ◌≤◌, ◌≡◌, refl, ◌&&◌, inl, inr, Option, none, some, List, [], ◌∷◌, ◌++◌, leb,
  length, All, All-append, arith, Bool-cases,
}
use graphrag_agent.Base.Text.{Str, elem}
use graphrag_agent.Search.Paths.{
  Edge, Entry, FoundPath, paths_found, adjacent, extend, search_loop, start, search_path_for_engine,
  max_paths, as_result,
}
use graphrag_agent.Search.Walks.{IsEntry, IsFound, Walk, here, adjacent-Joins, extend-lem}

module _ (nodes : List Str) (edges : List Edge) (from to : Str) (max_hops : ℕ) where
  search_loop-IsFound :
      (fuel : ℕ) (queue : List Entry) (paths ps : List FoundPath)
      → All (IsEntry nodes edges from to max_hops) queue
      → All (IsFound nodes edges from to max_hops) paths
      → search_loop nodes edges to max_hops fuel queue paths ≡ some ps
      → All (IsFound nodes edges from to max_hops) ps
  unfolding search_loop
  search_loop-IsFound zero queue paths ps hq hp eq = ground (arith, eq)
  search_loop-IsFound (suc fuel) [] paths ps hq hp eq = ground (arith, eq, hp)
  search_loop-IsFound (suc fuel) (entry ∷ queue) paths ps hq hp eq =
      let next = extend to entry (adjacent nodes entry.current edges) in
      elim (Bool-cases (leb max_paths (length paths))) [
        | inl full ↦ ground (arith, eq, full, hp)
        | inr more ↦ elim (Bool-cases (leb max_hops (length entry.edge_path))) [
          | inl far ↦
              search_loop-IsFound fuel queue paths ps hq.1 hp (ground (arith, eq, more, far))
          | inr near ↦
              let got =
                extend-lem nodes edges from to max_hops entry (adjacent nodes entry.current edges)
                  hq.0 (ground (arith, near))
                  (adjacent-Joins nodes edges from to max_hops entry.current) in
              search_loop-IsFound fuel (queue ++ next.1) (paths ++ next.0) ps
                (All-append _ queue next.1 hq.1 got.1) (All-append _ paths next.0 hp got.0)
                (ground (arith, eq, more, near))
        ]
      ]

as_result-some :
    (r : Option (List FoundPath)) (ps : List FoundPath) → as_result r ≡ paths_found ps → r ≡ some ps
as_result-some none ps eq = ground (arith, eq)
as_result-some (some qs) ps eq = ground (arith, eq)

-- Every path that the search returns leads from the one node to the other along edges of the graph,
-- each of them one of its list and between two of its nodes, visits no node twice, and has at most the allowed number of edges.
pub search_path_for_engine-AreWalks :
    (fuel : ℕ) (nodes : List Str) (edges : List Edge) (from to : Str) (max_hops : ℕ)
    (ps : List FoundPath)
    → search_path_for_engine fuel nodes edges from to max_hops ≡ paths_found ps
    → All (λ p. Walk nodes edges from to p.nodes p.edges × (length p.edges ≤ max_hops)) ps
unfolding search_path_for_engine
search_path_for_engine-AreWalks fuel nodes edges from to max_hops ps eq =
    elim (Bool-cases (elem from nodes && elem to nodes)) [
      | inl both ↦
          search_loop-IsFound nodes edges from to max_hops fuel (start from ∷ []) [] ps
            (here _ _ refl refl, tt) tt (as_result-some _ ps (ground (arith, both, eq)))
      | inr out ↦ ground (arith, eq, out)
    ]
