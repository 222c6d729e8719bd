-- ===== src/Application/Examples.antt =====
-- The graph of file_store.py on small inputs: two documents that name one thing.
use graphrag_agent.Base.{◌≡◌, refl, true, false, [], ◌∷◌, any, All, arith}
use graphrag_agent.Base.Text.{Str, codes, str_eq}
use graphrag_agent.Application.FileGraph.{
  GraphNode, GraphEdge, FileGraph, merge_kg, remove_doc_from_kg, same_edge,
}
use graphrag_agent.Application.Merge.{remove_doc_from_kg-merge_kg, merge_kg_dangling}

abbrev node_of : Str → Str → Str → GraphNode
node_of id name doc = record { id = id; name = name; kind = codes "TOOL"; source_doc = doc }

abbrev first_graph : FileGraph
first_graph = record {
  nodes = node_of (codes "tool_x_0") (codes "x") (codes "d1") ∷ [];
  edges = [];
}

abbrev second_node : GraphNode
second_node = node_of (codes "tool_x_4") (codes "x") (codes "d2")

abbrev second_edge : GraphEdge
second_edge = record { source = codes "tool_y_1"; target = codes "tool_x_4"; doc_id = codes "d2" }

remove_doc_from_kg-merge_kg_example :
    (remove_doc_from_kg
      (codes "d2")
      (merge_kg (λ s. s) (second_node ∷ []) (second_edge ∷ []) (codes "d2") first_graph)).0
    ≡ (remove_doc_from_kg (codes "d2") first_graph).0
remove_doc_from_kg-merge_kg_example =
    remove_doc_from_kg-merge_kg (λ s. s) (codes "d2") (second_node ∷ []) (second_edge ∷ [])
      (refl, tt) (refl, tt) first_graph

abbrev other_node : GraphNode
other_node = node_of (codes "tool_y_1") (codes "y") (codes "d2")

merge_kg_dangling_example :
    let g' =
      merge_kg
        (λ s. s)
        (second_node ∷ other_node ∷ [])
        (second_edge ∷ [])
        (codes "d2")
        first_graph in
    (any (λ (x : GraphNode). str_eq x.id (codes "tool_x_4")) g'.nodes ≡ false)
    × All (λ (e : GraphEdge). any (same_edge e) g'.edges ≡ true) (second_edge ∷ [])
unfolding str_eq
merge_kg_dangling_example =
    merge_kg_dangling (λ s. s) (codes "d2") (codes "tool_x_4") (second_node ∷ other_node ∷ [])
      (second_edge ∷ []) first_graph refl (λ is. refl, (λ is. ground (arith, is), tt))
