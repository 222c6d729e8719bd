-- ===== src/Search/Walks.antt =====
-- Simple paths along the edges of a graph, and that one turn of the search's loop, of
-- search_path_for_engine in search_service.py, keeps to them.
use graphrag_agent.Base.{
  ℕ, ◌≤◌, ◌<◌, ◌≡◌, refl, true, false, ◌⊎◌, inl, inr, List, [], ◌∷◌, ◌++◌, length, length-append,
  All, arith, Bool-cases, subst,
}
use graphrag_agent.Base.Text.{Str, str_eq, str_eq_iff, elem}
use graphrag_agent.Search.Paths.{Edge, Entry, FoundPath, adjacent, longer, extend}

-- The edge, with its ends and its relation, is one of the list.
pub Among : Edge → List Edge → Type 0
Among e [] = ⊥
Among e (x ∷ edges) = (e ≡ x) ⊎ Among e edges

-- The edge is one of the graph's and joins the two nodes, in one of its directions, and both ends
-- are nodes of the graph.
abbrev pub Joins : List Str → List Edge → Edge → Str → Str → Type 0
Joins nodes edges e a b =
    Among e edges
    × (((e.source ≡ a) × (e.target ≡ b)) ⊎ ((e.target ≡ a) × (e.source ≡ b)))
    × (elem e.source nodes ≡ true)
    × (elem e.target nodes ≡ true)

-- A walk from `from` to its last node along edges of the graph, in which no node comes twice.
pub data Walk (nodes : List Str) (edges : List Edge) (from : Str)
    : Str → List Str → List Edge → Type 0 where
  here :
      (ns : List Str) (es : List Edge) → ns ≡ from ∷ [] → es ≡ [] → Walk nodes edges from from ns es
  step :
      {a : Str} {ns : List Str} {es : List Edge} (b : Str) (e : Edge) (ns' : List Str)
      (es' : List Edge)
      → Walk nodes edges from a ns es
      → Joins nodes edges e a b
      → elem b ns ≡ false
      → ns' ≡ ns ++ b ∷ []
      → es' ≡ es ++ e ∷ []
      → Walk nodes edges from b ns' es'

module _ (nodes : List Str) (edges : List Edge) (from to : Str) (max_hops : ℕ) where
  abbrev pub IsEntry : Entry → Type 0
  IsEntry entry = Walk nodes edges from entry.current entry.node_path entry.edge_path

  abbrev pub IsFound : FoundPath → Type 0
  IsFound p = Walk nodes edges from to p.nodes p.edges × (length p.edges ≤ max_hops)

  pub AllJoined : Str → List (Str × Edge) → Type 0
  AllJoined node = All (λ a. Joins nodes edges a.1 node a.0)

  adjacent-AllJoined :
      (node : Str) (listed : List Edge)
      → ((e : Edge) → Among e listed → Among e edges)
      → AllJoined node (adjacent nodes node listed)
  unfolding adjacent AllJoined Among
  adjacent-AllJoined node [] all = tt
  adjacent-AllJoined node (e ∷ listed) all = ground (
    arith,
    adjacent-AllJoined node listed (λ d m. all d (inr m)),
    all e (inl refl),
    str_eq_iff e.source node,
    str_eq_iff e.target node,
  )

  pub adjacent-Joins : (node : Str) → AllJoined node (adjacent nodes node edges)
  adjacent-Joins node = adjacent-AllJoined node edges (λ e m. m)

  longer-IsEntry :
      (entry : Entry) (neighbor : Str) (e : Edge)
      → IsEntry entry
      → Joins nodes edges e entry.current neighbor
      → elem neighbor entry.node_path ≡ false
      → IsEntry (longer entry neighbor e)
  longer-IsEntry entry neighbor e w j n = step neighbor e _ _ w j n refl refl

  pub extend-lem :
      (entry : Entry) (adj : List (Str × Edge))
      → IsEntry entry
      → length entry.edge_path < max_hops
      → AllJoined entry.current adj
      → All IsFound (extend to entry adj).0 × All IsEntry (extend to entry adj).1
  unfolding extend AllJoined
  extend-lem entry [] w lt h = (tt, tt)
  extend-lem entry ((neighbor, e) ∷ adj) w lt h =
      let rest = extend-lem entry adj w lt h.1 in
      elim (Bool-cases (elem neighbor entry.node_path)) [
        | inl old ↦ rw old rest
        | inr new ↦
            let one = longer-IsEntry entry neighbor e w h.0 new in
            elim (Bool-cases (str_eq neighbor to)) [
              | inl ends ↦
                  rw (new, ends)
                    (
                      (
                        (
                          subst
                              (λ z.
                                Walk nodes edges from z (entry.node_path ++ neighbor ∷ [])
                                  (entry.edge_path ++ e ∷ []))
                              ((str_eq_iff neighbor to).0 ends) one,
                          omega (arith, length-append entry.edge_path (e ∷ [])),
                        ),
                        rest.0,
                      ),
                      rest.1,
                    )
              | inr on ↦ rw (new, on) (rest.0, (one, rest.1))
            ]
      ]
