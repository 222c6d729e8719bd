-- ===== src/Cooccurrence/Pairs.antt =====
-- `neighbor_pairs` and `build_sparse_cooccurrence_edges` of cooccurrence.py.
use graphrag_agent.Base.{
  ℕ, ◌-◌, Bool, not, ◌&&◌, ◌||◌, List, [], ◌∷◌, ◌++◌, map, if◌then◌else◌, leb, ltb, length, take,
}
use graphrag_agent.Base.Int.{ℤ, ltb_ℤ, eqb_ℤ}
use graphrag_agent.Base.Text.{Str, codes, str_eq, str_lt, nonempty}
use graphrag_agent.Base.Sort.{sort_by, add_all}

abbrev pub max_page_clique_nodes : ℕ
max_page_clique_nodes = 12

abbrev pub max_neighbors_per_node : ℕ
max_neighbors_per_node = 4

-- A logical page and its positioned node ids.
abbrev pub Page : Type 0
Page = ℤ × List (ℤ × Str)

pub record Placed : Type 0 where
  pub node : Str
  pub at : ℤ

pub record Pair : Type 0 where
  pub page : ℤ
  pub left : Str
  pub right : Str

-- positions[node_id] = min(positions.get(node_id, position), position)
unfoldable pub note_position : Str → ℤ → List Placed → List Placed
note_position id p [] = record { node = id; at = p } ∷ []
note_position id p (q ∷ qs) =
    if str_eq q.node id
    then record q { at = if ltb_ℤ p q.at then p else q.at } ∷ qs
    else q ∷ note_position id p qs

unfoldable pub positions : List (ℤ × Str) → List Placed → List Placed
unfolding note_position
positions [] seen = seen
positions ((p, id) ∷ nodes) seen =
    positions nodes (if nonempty id then note_position id p seen else seen)

-- (position, node_id) in order
abbrev pub placed_le : Placed → Placed → Bool
placed_le a b = ltb_ℤ a.at b.at || (eqb_ℤ a.at b.at && not (str_lt b.node a.node))

abbrev pub node_of : Placed → Str
node_of q = q.node

unfoldable pub ordered : List (ℤ × Str) → List Str
unfolding positions sort_by
ordered nodes = map node_of (sort_by placed_le (positions nodes []))

-- left, right = sorted((source, target))
unfoldable pub make_pair : ℤ → Str → Str → Pair
make_pair page source target =
    if str_lt target source
    then record { page = page; left = target; right = source }
    else record { page = page; left = source; right = target }

unfoldable pub pairs_from : ℤ → ℕ → List Str → List Pair
unfolding make_pair
pairs_from page reach [] = []
pairs_from page reach (source ∷ rest) =
    map (make_pair page source) (take reach rest) ++ pairs_from page reach rest

unfoldable pub reach_of : Bool → ℕ → ℕ → ℕ → ℕ
reach_of physical clique_limit max_neighbors count =
    if physical || leb count clique_limit then count - 1 else max_neighbors

abbrev pub pair_eq : Pair → Pair → Bool
pair_eq a b = eqb_ℤ a.page b.page && str_eq a.left b.left && str_eq a.right b.right

unfoldable pub page_pairs : Bool → ℕ → ℕ → Page → List Pair
unfolding ordered pairs_from reach_of
page_pairs physical clique_limit max_neighbors (page, nodes) =
    pairs_from page (reach_of physical clique_limit max_neighbors (length (ordered nodes)))
      (ordered nodes)

-- the loop over the pages
unfoldable pub select_pairs : Bool → ℕ → ℕ → List Page → List Pair → List Pair
unfolding page_pairs add_all
select_pairs physical clique_limit max_neighbors [] selected = selected
select_pairs physical clique_limit max_neighbors (p ∷ pages) selected =
    select_pairs physical clique_limit max_neighbors pages
      (add_all pair_eq (page_pairs physical clique_limit max_neighbors p) selected)

unfoldable pub neighbor_pairs : ℕ → ℕ → List Page → List Pair
unfolding select_pairs
neighbor_pairs clique_limit max_neighbors pages =
    select_pairs (ltb 1 (length pages)) clique_limit max_neighbors pages []

-- (page, source, target) in order
abbrev pub pair_le : Pair → Pair → Bool
pair_le a b =
    ltb_ℤ a.page b.page
    || (eqb_ℤ a.page b.page
        && (str_lt a.left b.left || (str_eq a.left b.left && not (str_lt b.right a.right))))

pub record Edge : Type 0 where
  pub source : Str
  pub target : Str
  pub relation : Str
  pub doc_id : Str
  pub page : ℤ

abbrev pub edge_of : Str → Pair → Edge
edge_of doc p = record {
  source = p.left;
  target = p.right;
  relation = codes "CO_OCCURS_IN";
  doc_id = doc;
  page = p.page;
}

unfoldable pub build_sparse_cooccurrence_edges : List Page → Str → List Edge
unfolding neighbor_pairs sort_by
build_sparse_cooccurrence_edges pages doc =
    map (edge_of doc)
      (sort_by pair_le (neighbor_pairs max_page_clique_nodes max_neighbors_per_node pages))
