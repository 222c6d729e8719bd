-- ===== src/Application/FileGraph.antt =====
-- The knowledge graph that file_store.py keeps in two files, with the fields that it looks at. `lower`
-- is Unicode's lower case.
use graphrag_agent.Base.{
  ℕ, ◌-◌, Bool, not, ◌&&◌, List, [], ◌∷◌, ◌++◌, if◌then◌else◌, length, keep_if, any,
}
use graphrag_agent.Base.Text.{Str, str_eq, str_lt}

pub record GraphNode : Type 0 where
  pub id : Str
  pub name : Str
  pub kind : Str
  pub source_doc : Str

pub record GraphEdge : Type 0 where
  pub source : Str
  pub target : Str
  pub doc_id : Str

pub record FileGraph : Type 0 where
  pub nodes : List GraphNode
  pub edges : List GraphEdge

abbrev pub nodes_but : Str → List GraphNode → List GraphNode
nodes_but doc nodes = keep_if (λ (n : GraphNode). not (str_eq n.source_doc doc)) nodes

abbrev pub edges_but : Str → List GraphEdge → List GraphEdge
edges_but doc edges = keep_if (λ (e : GraphEdge). not (str_eq e.doc_id doc)) edges

abbrev pub min_text : Str → Str → Str
min_text s t = if str_lt t s then t else s

abbrev pub max_text : Str → Str → Str
max_text s t = if str_lt s t then t else s

-- One key for both directions.
abbrev pub same_edge : GraphEdge → GraphEdge → Bool
same_edge a b =
    str_eq (min_text a.source a.target) (min_text b.source b.target)
    && (str_eq (max_text a.source a.target) (max_text b.source b.target)
        && str_eq a.doc_id b.doc_id)

unfoldable pub add_edges : List GraphEdge → List GraphEdge → List GraphEdge
add_edges [] edges = edges
add_edges (e ∷ new) edges =
    let next = if any (same_edge e) edges then edges else edges ++ e ∷ [] in add_edges new next

-- `remove_doc_from_kg`, with the numbers of what it removes
abbrev pub remove_doc_from_kg : Str → FileGraph → FileGraph × (ℕ × ℕ)
remove_doc_from_kg doc g =
    let nodes = nodes_but doc g.nodes in
    let edges = edges_but doc g.edges in
    (
      record { nodes = nodes; edges = edges },
      (length g.nodes - length nodes, length g.edges - length edges),
    )

module _ (lower : Str → Str) where
  abbrev pub same_node : GraphNode → GraphNode → Bool
  same_node a b = str_eq (lower a.name) (lower b.name) && str_eq a.kind b.kind

  unfoldable pub add_nodes : List GraphNode → List GraphNode → List GraphNode
  add_nodes [] nodes = nodes
  add_nodes (n ∷ new) nodes =
      let next = if any (same_node n) nodes then nodes else nodes ++ n ∷ [] in add_nodes new next

  -- `merge_kg`, without the two counts that it returns
  unfoldable pub merge_kg : List GraphNode → List GraphEdge → Str → FileGraph → FileGraph
  unfolding add_nodes add_edges
  merge_kg nodes edges doc g = record {
    nodes = add_nodes nodes (nodes_but doc g.nodes);
    edges = add_edges edges (edges_but doc g.edges);
  }
