-- ===== src/Search/Scoping.antt =====
-- What the scoped searches of search_service.py can show.
use graphrag_agent.Base.{
  ℕ, zero, suc, max, ◌≤◌, ◌≡◌, refl, Bool, true, ◌&&◌, Option, none, some, List, [], ◌∷◌, length,
  take, keep_if, any, All, All-take, All-mono, sym, ◌∙◌, subst, length-take-le, arith, Bool-cases,
  inl, inr,
}
use graphrag_agent.Base.Text.{Str, nonempty, elem, elem-append, str_eq}
use graphrag_agent.Search.Scope.{
  allowed_node_ids, Found, in_scope, search_entities, Paths, all_in, search_path, scope_paths,
  Subgraph, search_graph,
}

keep_if-All : {A : Type 0} (p : A → Bool) (xs : List A) → All (λ x. p x ≡ true) (keep_if p xs)
keep_if-All p [] = tt
keep_if-All p (x ∷ xs) = elim (Bool-cases (p x)) [
  | inl e ↦ rw e (e, keep_if-All p xs)
  | inr e ↦ rw e (keep_if-All p xs)
]

-- One of the documents exports a node of this id.
abbrev pub exported : (Str → List Str) → List Str → Str → Bool
exported export docs id = any (λ doc. nonempty id && elem id (export doc)) docs

elem-keep_if :
    (id : Str) (ids : List Str) → elem id (keep_if nonempty ids) ≡ (nonempty id && elem id ids)
unfolding elem str_eq
elem-keep_if [] [] = refl
elem-keep_if (d ∷ id) [] = refl
elem-keep_if [] ([] ∷ ids) = elem-keep_if [] ids
elem-keep_if [] ((c ∷ t) ∷ ids) = elem-keep_if [] ids
elem-keep_if (d ∷ id) ([] ∷ ids) = elem-keep_if (d ∷ id) ids
elem-keep_if (d ∷ id) ((c ∷ t) ∷ ids) = ground (arith, elem-keep_if (d ∷ id) ids)

elem-allowed_node_ids :
    (export : Str → List Str) (docs : List Str) (id : Str)
    → elem id (allowed_node_ids export docs) ≡ exported export docs id
unfolding allowed_node_ids elem
elem-allowed_node_ids export [] id = refl
elem-allowed_node_ids export (doc ∷ docs) id = ground (
  arith,
  elem-append id (keep_if nonempty (export doc)) (allowed_node_ids export docs),
  elem-keep_if id (export doc),
  elem-allowed_node_ids export docs id,
)

-- A node that one of the allowed documents exports.
abbrev pub IsExported : (Str → List Str) → List Str → Str → Type 0
IsExported export docs id = exported export docs id ≡ true

all_in-IsExported :
    (export : Str → List Str) (docs path : List Str)
    → all_in (allowed_node_ids export docs) path ≡ true
    → All (IsExported export docs) path
all_in-IsExported export docs [] h = tt
all_in-IsExported export docs (id ∷ path) h = (
  ground (arith, elem-allowed_node_ids export docs id, h),
  all_in-IsExported export docs path (ground (arith, h)),
)

length-take-le_length : {A : Type 0} (n : ℕ) (xs : List A) → length (take n xs) ≤ length xs
length-take-le_length zero xs = omega arith
length-take-le_length (suc n) [] = omega arith
length-take-le_length (suc n) (x ∷ xs) = omega (arith, length-take-le_length n xs)

-- A scoped search for entities shows at most the limit, counts no fewer than it shows, and shows
-- only items whose document is one of the allowed ones, whatever the repository answers.
pub search_entities-InScope :
    (answer : ℕ → Found) (limit : ℕ) (allowed : List Str)
    → let r = search_entities answer limit (some allowed) in
      All (λ item. in_scope allowed item ≡ true) r.items
      × (length r.items ≤ limit)
      × (length r.items ≤ r.total)
unfolding search_entities
search_entities-InScope answer limit allowed =
    let kept = keep_if (in_scope allowed) (answer (max limit 100)).items in
    (
      All-take (λ item. in_scope allowed item ≡ true) limit kept
          (keep_if-All (in_scope allowed) (answer (max limit 100)).items),
      length-take-le limit kept,
      length-take-le_length limit kept,
    )

-- What is true of a scoped search's paths, if there are any.
Scoped : (Str → List Str) → List Str → Str → Str → Option Paths → Type 0
Scoped export docs from to none = Unit {0}
Scoped export docs from to (some r) =
    IsExported export docs from
    × IsExported export docs to
    × All (All (IsExported export docs)) r.paths
    × (r.total_paths ≡ length r.paths)

scope_paths-Scoped :
    (export : Str → List Str) (result : Option Paths) (from to : Str) (docs : List Str)
    → IsExported export docs from
    → IsExported export docs to
    → Scoped export docs from to (scope_paths (allowed_node_ids export docs) result)
unfolding Scoped
scope_paths-Scoped export none from to docs h k = tt
scope_paths-Scoped export (some r) from to docs h k = (
  h,
  k,
  All-mono (λ path. all_in (allowed_node_ids export docs) path ≡ true)
      (All (IsExported export docs)) (keep_if (all_in (allowed_node_ids export docs)) r.paths)
      (all_in-IsExported export docs) (keep_if-All (all_in (allowed_node_ids export docs)) r.paths),
  refl,
)

search_path-Scoped :
    (export : Str → List Str) (result : Option Paths) (from to : Str) (docs : List Str)
    → Scoped export docs from to (search_path export result from to (some docs))
unfolding search_path Scoped
search_path-Scoped export result from to docs =
    let nodes = allowed_node_ids export docs in
    elim (Bool-cases (elem from nodes && elem to nodes)) [
      | inl both ↦ rw both (
          scope_paths-Scoped export result from to docs
            (ground (arith, elem-allowed_node_ids export docs from, both))
            (ground (arith, elem-allowed_node_ids export docs to, both)))
      | inr out ↦ rw out tt
    ]

-- A scoped search for paths shows only paths all of whose nodes are exported by allowed documents,
-- and counts them; it shows any only between two such nodes.
pub search_path-InScope :
    (export : Str → List Str) (result : Option Paths) (from to : Str) (docs : List Str) (r : Paths)
    → search_path export result from to (some docs) ≡ some r
    → IsExported export docs from
      × IsExported export docs to
      × All (All (IsExported export docs)) r.paths
      × (r.total_paths ≡ length r.paths)
unfolding Scoped
search_path-InScope export result from to docs r eq =
    subst (Scoped export docs from to) eq (search_path-Scoped export result from to docs)

-- A scoped search of the graph shows only nodes that allowed documents export, and only edges
-- between such nodes.
pub search_graph-InScope :
    (export : Str → List Str) (result : Subgraph) (docs : List Str)
    → let r = search_graph export result (some docs) in
      All (IsExported export docs) r.matched_nodes
      × All
          (λ e. IsExported export docs e.source × IsExported export docs e.target)
          r.subgraph_edges
unfolding search_graph
search_graph-InScope export result docs = (
  All-mono _ _ _ (λ id h. sym (elem-allowed_node_ids export docs id) ∙ h)
      (keep_if-All _ result.matched_nodes),
  All-mono _ _ _
      (λ e h. ground (
        arith,
        elem-allowed_node_ids export docs e.source,
        elem-allowed_node_ids export docs e.target,
        h,
      ))
      (keep_if-All _ result.subgraph_edges),
)
