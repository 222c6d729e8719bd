-- ===== src/Application/Merge.antt =====
-- What merging a document into the graph of file_store.py leaves, and what its removal takes away.
use graphrag_agent.Base.{
  ◌≡◌, refl, ap, ◌∙◌, Bool, true, false, not, List, [], ◌∷◌, ◌++◌, keep_if, any, arith, All, inl,
  inr, Bool-cases, All-mono, subst,
}
use graphrag_agent.Base.Text.{Str, str_eq, str_eq_refl}
use graphrag_agent.Application.FileGraph.{
  GraphNode, GraphEdge, FileGraph, nodes_but, edges_but, min_text, max_text, same_edge, add_edges,
  remove_doc_from_kg, same_node, add_nodes, merge_kg,
}

module _ {ℓ} {A : Type ℓ} (p : A → Bool) where
  keep_if-snoc : (xs : List A) (x : A) → p x ≡ false → keep_if p (xs ++ x ∷ []) ≡ keep_if p xs
  keep_if-snoc [] x h = rw h refl
  keep_if-snoc (y ∷ xs) x h = ground (arith, keep_if-snoc xs x h)

  keep_if_again : (xs : List A) → keep_if p (keep_if p xs) ≡ keep_if p xs
  keep_if_again [] = refl
  keep_if_again (x ∷ xs) = elim (Bool-cases (p x)) [
    | inl e ↦ rw (e, e) (ap (λ (l : List A). x ∷ l) (keep_if_again xs))
    | inr e ↦ rw e (keep_if_again xs)
  ]

add_edges_but :
    (doc : Str) (new edges : List GraphEdge)
    → All (λ (e : GraphEdge). e.doc_id ≡ doc) new
    → edges_but doc (add_edges new edges) ≡ edges_but doc edges
unfolding add_edges
add_edges_but doc [] edges h = refl
add_edges_but doc (e ∷ new) edges h = elim (Bool-cases (any (same_edge e) edges)) [
  | inl f ↦ rw f (add_edges_but doc new edges h.1)
  | inr f ↦ rw f (
      add_edges_but doc new (edges ++ e ∷ []) h.1
      ∙ keep_if-snoc (λ (e : GraphEdge). not (str_eq e.doc_id doc)) edges e
          (rw (h.0, str_eq_refl doc) refl))
]

module _ (lower : Str → Str) where
  add_nodes_but :
      (doc : Str) (new nodes : List GraphNode)
      → All (λ (n : GraphNode). n.source_doc ≡ doc) new
      → nodes_but doc (add_nodes lower new nodes) ≡ nodes_but doc nodes
  unfolding add_nodes
  add_nodes_but doc [] nodes h = refl
  add_nodes_but doc (n ∷ new) nodes h = elim (Bool-cases (any (same_node lower n) nodes)) [
    | inl f ↦ rw f (add_nodes_but doc new nodes h.1)
    | inr f ↦ rw f (
        add_nodes_but doc new (nodes ++ n ∷ []) h.1
        ∙ keep_if-snoc (λ (n : GraphNode). not (str_eq n.source_doc doc)) nodes n
            (rw (h.0, str_eq_refl doc) refl))
  ]

  module _ (doc : Str) (nodes : List GraphNode) (edges : List GraphEdge)
      (own_nodes : All (λ (n : GraphNode). n.source_doc ≡ doc) nodes)
      (own_edges : All (λ (e : GraphEdge). e.doc_id ≡ doc) edges) where
    -- Removing a document that was just merged removes just as much as without the merge: nothing of
    -- any other document.
    pub remove_doc_from_kg-merge_kg :
        (g : FileGraph)
        → (remove_doc_from_kg doc (merge_kg lower nodes edges doc g)).0
          ≡ (remove_doc_from_kg doc g).0
    unfolding merge_kg
    remove_doc_from_kg-merge_kg g =
        ap
          (λ (ns : List GraphNode). record {
            nodes = ns;
            edges = edges_but doc (add_edges edges (edges_but doc g.edges));
          })
          (add_nodes_but doc nodes (nodes_but doc g.nodes) own_nodes
            ∙ keep_if_again (λ (n : GraphNode). not (str_eq n.source_doc doc)) g.nodes)
        ∙ ap (λ (es : List GraphEdge). record { nodes = nodes_but doc g.nodes; edges = es })
            (add_edges_but doc edges (edges_but doc g.edges) own_edges
              ∙ keep_if_again (λ (e : GraphEdge). not (str_eq e.doc_id doc)) g.edges)

    -- Merging a document again changes nothing.
    pub merge_kg_again :
        (g : FileGraph)
        → merge_kg lower nodes edges doc (merge_kg lower nodes edges doc g)
          ≡ merge_kg lower nodes edges doc g
    unfolding merge_kg
    merge_kg_again g =
        ap
          (λ (x : FileGraph). record {
            nodes = add_nodes lower nodes x.nodes;
            edges = add_edges edges x.edges;
          })
          (remove_doc_from_kg-merge_kg g)

  any-snoc :
      {A : Type 0} (p : A → Bool) (xs : List A) (x : A) → p x ≡ true → any p (xs ++ x ∷ []) ≡ true
  any-snoc p [] x h = rw h refl
  any-snoc p (y ∷ xs) x h = ground (arith, any-snoc p xs x h)

  any_more :
      {A : Type 0} (p : A → Bool) (xs : List A) (x : A)
      → any p xs ≡ true
      → any p (xs ++ x ∷ []) ≡ true
  any_more p [] x h = ground (arith, h)
  any_more p (y ∷ xs) x h = ground (arith, h, any_more p xs x)

  any_no_more :
      {A : Type 0} (p : A → Bool) (xs : List A) (x : A)
      → any p xs ≡ false
      → p x ≡ false
      → any p (xs ++ x ∷ []) ≡ false
  any_no_more p [] x h other = rw other refl
  any_no_more p (y ∷ xs) x h other = ground (arith, h, any_no_more p xs x)

  -- What a list of edges held by key, a merge into it holds too.
  add_edges_keep :
      (e : GraphEdge) (new edges : List GraphEdge)
      → any (same_edge e) edges ≡ true
      → any (same_edge e) (add_edges new edges) ≡ true
  unfolding add_edges
  add_edges_keep e [] edges h = h
  add_edges_keep e (x ∷ new) edges h = elim (Bool-cases (any (same_edge x) edges)) [
    | inl old ↦ rw old (add_edges_keep e new edges h)
    | inr fresh ↦
        rw fresh (add_edges_keep e new (edges ++ x ∷ []) (any_more (same_edge e) edges x h))
  ]

  same_edge_refl : (e : GraphEdge) → same_edge e e ≡ true
  same_edge_refl e =
      rw
        (
          str_eq_refl (min_text e.source e.target),
          str_eq_refl (max_text e.source e.target),
          str_eq_refl e.doc_id,
        )
        refl

  add_edges_all :
      (new edges after : List GraphEdge)
      → add_edges new edges ≡ after
      → All (λ (e : GraphEdge). any (same_edge e) after ≡ true) new
  unfolding add_edges
  add_edges_all [] edges after end = tt
  add_edges_all (e ∷ new) edges after end = elim (Bool-cases (any (same_edge e) edges)) [
    | inl old ↦
        let rest : add_edges new edges ≡ after = rw old refl ∙ end in
        (
          subst (λ l. any (same_edge e) l ≡ true) rest (add_edges_keep e new edges old),
          add_edges_all new edges after rest,
        )
    | inr fresh ↦
        let rest : add_edges new (edges ++ e ∷ []) ≡ after = rw fresh refl ∙ end in
        (
          subst (λ l. any (same_edge e) l ≡ true) rest
              (add_edges_keep e new (edges ++ e ∷ [])
                (any-snoc (same_edge e) edges e (same_edge_refl e))),
          add_edges_all new (edges ++ e ∷ []) after rest,
        )
  ]

  abbrev Left : Str → List GraphNode → GraphNode → Type 0
  Left id nodes n = str_eq n.id id ≡ true → any (same_node lower n) nodes ≡ true

  add_nodes_without :
      (id : Str) (new nodes : List GraphNode)
      → any (λ (x : GraphNode). str_eq x.id id) nodes ≡ false
      → All (Left id nodes) new
      → any (λ (x : GraphNode). str_eq x.id id) (add_nodes lower new nodes) ≡ false
  unfolding add_nodes
  add_nodes_without id [] nodes absent left = absent
  add_nodes_without id (n ∷ new) nodes absent left =
      elim (Bool-cases (any (same_node lower n) nodes)) [
        | inl old ↦ rw old (add_nodes_without id new nodes absent left.1)
        | inr fresh ↦ rw fresh (
            add_nodes_without id new (nodes ++ n ∷ [])
              (any_no_more (λ (x : GraphNode). str_eq x.id id) nodes n absent
                (ground (arith, left.0, fresh)))
              (All-mono (Left id nodes) (Left id (nodes ++ n ∷ [])) new
                (λ x h is. any_more (same_node lower x) nodes n (h is)) left.1))
      ]

  -- Where no other document has a node of an id, and for each merged node of that id another
  -- document has a node of the same lowered name and type, the merged graph has no node of the id.
  -- Every merged edge is stored all the same, so that one that leads to the id dangles.
  pub merge_kg_dangling :
      (doc id : Str) (nodes : List GraphNode) (edges : List GraphEdge) (g : FileGraph)
      → any (λ (x : GraphNode). str_eq x.id id) (nodes_but doc g.nodes) ≡ false
      → All
          (λ (n : GraphNode).
            str_eq n.id id ≡ true → any (same_node lower n) (nodes_but doc g.nodes) ≡ true)
          nodes
      → let g' = merge_kg lower nodes edges doc g in
        (any (λ (x : GraphNode). str_eq x.id id) g'.nodes ≡ false)
        × All (λ (e : GraphEdge). any (same_edge e) g'.edges ≡ true) edges
  unfolding merge_kg
  merge_kg_dangling doc id nodes edges g absent left = (
    add_nodes_without id nodes (nodes_but doc g.nodes) absent left,
    add_edges_all edges (edges_but doc g.edges) _ refl,
  )
