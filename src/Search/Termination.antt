-- ===== src/Search/Termination.antt =====
-- The loop of search_path_for_engine of search_service.py ends, after a number of turns that the
-- graph and the hops bound.
use graphrag_agent.Base.{
  ℕ, zero, suc, ◌+◌, ◌≤◌, ◌<◌, ◌*◌, ◌-◌, ◌≡◌, refl, ap, true, inl, inr, some, List, [], ◌∷◌, ◌++◌,
  leb, length, length-append, arith, Bool-cases,
}
use graphrag_agent.Base.Text.{Str, elem, str_eq}
use graphrag_agent.Search.Paths.{
  Edge, Entry, FoundPath, paths_found, adjacent, extend, search_loop, start, search_path_for_engine,
  max_paths, as_result,
}

-- The turns that an entry with `h` hops left costs, itself and all that come of it.
abbrev pub turns : ℕ → ℕ → ℕ
turns degree zero = 1
turns degree (suc h) = 1 + degree * turns degree h

turns_pos : (d h : ℕ) → 0 < turns d h
turns_pos d zero = omega arith
turns_pos d (suc h) = omega arith

mul_mono : {a b : ℕ} (c : ℕ) → a ≤ b → a * c ≤ b * c
mul_mono c le = grind (arith, le)

suc_mul : (a b : ℕ) → suc a * b ≡ b + a * b
suc_mul a b = omega arith

module _ (nodes : List Str) (edges : List Edge) (to : Str) (max_hops : ℕ) where
  abbrev degree : ℕ
  degree = 2 * length edges

  cost : List Entry → ℕ
  cost [] = 0
  cost (entry ∷ queue) = turns degree (max_hops - length entry.edge_path) + cost queue

  cost-append : (xs ys : List Entry) → cost (xs ++ ys) ≡ cost xs + cost ys
  unfolding cost
  cost-append [] ys = omega arith
  cost-append (x ∷ xs) ys = omega (arith, cost-append xs ys)

  length-adjacent-le :
      (node : Str) (es : List Edge) → length (adjacent nodes node es) ≤ 2 * length es
  unfolding adjacent
  length-adjacent-le node [] = omega arith
  length-adjacent-le node (e ∷ es) = ground (arith, length-adjacent-le node es)

  length-extend-le :
      (entry : Entry) (adj : List (Str × Edge)) → length (extend to entry adj).0 ≤ length adj
  unfolding extend
  length-extend-le entry [] = omega arith
  length-extend-le entry ((neighbor, e) ∷ adj) = ground (arith, length-extend-le entry adj)

  cost-extend-le :
      (entry : Entry) (adj : List (Str × Edge)) (h : ℕ)
      → max_hops ≡ length entry.edge_path + suc h
      → cost (extend to entry adj).1 ≤ length adj * turns degree h
  unfolding extend cost
  cost-extend-le entry [] h eq = omega arith
  cost-extend-le entry ((neighbor, e) ∷ adj) h eq =
      let rest = cost-extend-le entry adj h eq in
      let one : turns degree (max_hops - length (entry.edge_path ++ e ∷ [])) ≡ turns degree h =
        ap (turns degree) (omega (arith, eq, length-append entry.edge_path (e ∷ []))) in
      let product = suc_mul (length adj) (turns degree h) in
      elim (Bool-cases (elem neighbor entry.node_path)) [
        | inl old ↦ rw old (omega (arith, rest, product))
        | inr new ↦ elim (Bool-cases (str_eq neighbor to)) [
          | inl ends ↦ rw (new, ends) (omega (arith, rest, product))
          | inr on ↦ rw (new, on) (omega (arith, rest, product, one))
        ]
      ]

  cost-next-le :
      (entry : Entry)
      → length entry.edge_path < max_hops
      → cost (extend to entry (adjacent nodes entry.current edges)).1
        < turns degree (max_hops - length entry.edge_path)
  cost-next-le entry lt =
      let h = max_hops - suc (length entry.edge_path) in
      let adj = adjacent nodes entry.current edges in
      let hops : max_hops - length entry.edge_path ≡ suc h = omega (arith, lt) in
      let left : turns degree (max_hops - length entry.edge_path) ≡ 1 + degree * turns degree h =
        ap (turns degree) hops in
      let spent = cost-extend-le entry adj h (omega (arith, lt)) in
      let few = mul_mono (turns degree h) (length-adjacent-le entry.current edges) in
      omega (arith, left, spent, few)

  search_loop-ends :
      (fuel : ℕ) (queue : List Entry) (paths : List FoundPath)
      → cost queue < fuel
      → length paths < max_paths + degree
      → ((ps : List FoundPath) × (search_loop nodes edges to max_hops fuel queue paths ≡ some ps)
          × (length ps < max_paths + degree))
  unfolding search_loop cost
  search_loop-ends zero queue paths lt few = ground (arith, lt)
  search_loop-ends (suc fuel) [] paths lt few = (paths, refl, few)
  search_loop-ends (suc fuel) (entry ∷ queue) paths lt few =
      let adj = adjacent nodes entry.current edges in
      let next = extend to entry adj in
      elim (Bool-cases (leb max_paths (length paths))) [
        | inl full ↦ (paths, rw full refl, few)
        | inr more ↦ elim (Bool-cases (leb max_hops (length entry.edge_path))) [
          | inl far ↦
              let rest =
                search_loop-ends fuel queue paths
                  (omega (arith, lt, turns_pos degree (max_hops - length entry.edge_path))) few in
              (rest.0, rw (more, far) rest.1, rest.2)
          | inr near ↦
              let rest =
                search_loop-ends fuel (queue ++ next.1) (paths ++ next.0)
                  (omega (
                    arith,
                    lt,
                    cost-append queue next.1,
                    cost-next-le entry (ground (arith, near)),
                  ))
                  (ground (
                    arith,
                    more,
                    few,
                    length-append paths next.0,
                    length-extend-le entry adj,
                    length-adjacent-le entry.current edges,
                  )) in
              (rest.0, rw (more, near) rest.1, rest.2)
        ]
      ]

-- If both ends are nodes of the graph, the search ends within a number of turns that the number of
-- edges and the allowed hops give, with fewer than 20 paths and two for each edge of the graph.
pub search_path_for_engine-ends :
    (fuel : ℕ) (nodes : List Str) (edges : List Edge) (from to : Str) (max_hops : ℕ)
    → elem from nodes ≡ true
    → elem to nodes ≡ true
    → turns (2 * length edges) max_hops < fuel
    → ((ps : List FoundPath) × (search_path_for_engine fuel nodes edges from to max_hops
          ≡ paths_found ps)
        × (length ps < max_paths + 2 * length edges))
unfolding search_path_for_engine cost
search_path_for_engine-ends fuel nodes edges from to max_hops in_from in_to lt =
    let hops : max_hops - 0 ≡ max_hops = omega arith in
    let got =
      search_loop-ends nodes edges to max_hops fuel (start from ∷ []) []
        (rw hops (omega (arith, lt))) (omega arith) in
    (got.0, rw (in_from, in_to) (ap as_result got.1), got.2)
