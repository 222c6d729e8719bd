-- ===== src/Builder/Built.antt =====
-- What build_kg of kg_builder.py returns.
use graphrag_agent.Base.{
  ℕ, zero, suc, ◌<◌, ◌≡◌, refl, true, some, List, [], ◌∷◌, length, get_elem?, any, All, All-mono,
  arith, Bool-cases, inl, inr, subst, ◌++◌, ◌&&◌, Option, none, if◌then◌else◌, Bool,
}
use graphrag_agent.Base.Int.{ℤ, pos}
use graphrag_agent.Base.Text.{Str, str_eq, str_eq_iff, str_lt, elem}
use graphrag_agent.Base.Sort.{Unique}
use graphrag_agent.Assembler.Pages.{PageText}
use graphrag_agent.Cooccurrence.Pairs.{Page, Edge, build_sparse_cooccurrence_edges}
use graphrag_agent.Cooccurrence.Soundness.{
  IsEdge, on_some_page, build_sparse_cooccurrence_edges_lem,
}
use graphrag_agent.Builder.Graph.{
  Extraction, Entity, Node, Positions, State, add_entities, add_entity, page_ids, positioned_nodes,
  empty_state, raw_entities, build_kg, accepted_alignments, entity_of, keep_accepted, page_entities,
}
use graphrag_agent.Builder.Nodes.{
  IsState, Indexed, AllIndexed, same_key, has_node, add_entity-Grows,
}

abbrev pub ids : List Node → List Str
ids [] = []
ids (x ∷ nodes) = x.id ∷ ids nodes

get_elem-below :
    (nodes : List Node) (i : ℕ)
    → i < length nodes
    → ((x : Node) × (get_elem? nodes i ≡ some x) × (elem x.id (ids nodes) ≡ true))
unfolding elem
get_elem-below [] i lt = absurd (omega (arith, lt))
get_elem-below (x ∷ nodes) zero lt = (x, refl, ground (arith, str_eq_iff x.id x.id))
get_elem-below (x ∷ nodes) (suc i) lt =
    let rest = get_elem-below nodes i (omega (arith, lt)) in
    (rest.0, rest.1, ground (arith, rest.2))

abbrev Known : List Node → List (ℤ × Str) → Type 0
Known nodes placed = All (λ q. elem q.1 (ids nodes) ≡ true) placed

page_ids-Known :
    (nodes : List Node) (places : List (ℕ × ℤ))
    → Indexed (length nodes) places
    → ((placed : List (ℤ × Str)) × (page_ids nodes places ≡ some placed) × Known nodes placed)
unfolding page_ids
page_ids-Known nodes [] h = ([], refl, tt)
page_ids-Known nodes ((i, p) ∷ places) h =
    let one = get_elem-below nodes i h.0 in
    let rest = page_ids-Known nodes places h.1 in
    ((p, one.0.id) ∷ rest.0, rw (page_ids, one.1, rest.1) refl, (one.2, rest.2))

positioned_nodes-Known :
    (nodes : List Node) (positions : Positions)
    → AllIndexed (length nodes) positions
    → ((pages : List Page) × (positioned_nodes nodes positions ≡ some pages)
        × All (λ pg. Known nodes pg.1) pages)
unfolding positioned_nodes
positioned_nodes-Known nodes [] h = ([], refl, tt)
positioned_nodes-Known nodes ((page, places) ∷ positions) h =
    let one = page_ids-Known nodes places h.0 in
    let rest = positioned_nodes-Known nodes positions h.1 in
    ((pos page, one.0) ∷ rest.0, rw (positioned_nodes, one.1, rest.1) refl, (one.2, rest.2))

any-Known :
    (nodes : List Node) (placed : List (ℤ × Str)) (id : Str)
    → Known nodes placed
    → any (λ q. str_eq q.1 id) placed ≡ true
    → elem id (ids nodes) ≡ true
any-Known nodes [] id h a = ground (arith, a)
any-Known nodes ((p, i) ∷ placed) id h a = elim (Bool-cases (str_eq i id)) [
  | inl same ↦ subst (λ z. elem z (ids nodes) ≡ true) ((str_eq_iff i id).0 same) h.0
  | inr other ↦ any-Known nodes placed id h.1 (ground (arith, other, a))
]

-- Both ends of the edge are ids of nodes, and different ones.
abbrev pub Between : List Node → Edge → Type 0
Between nodes e =
    (elem e.source (ids nodes) ≡ true)
    × (elem e.target (ids nodes) ≡ true)
    × (str_lt e.source e.target ≡ true)

on_some_page-Known :
    (nodes : List Node) (pages : List Page) (e : Edge)
    → All (λ pg. Known nodes pg.1) pages
    → on_some_page pages (record { page = e.page; left = e.source; right = e.target }) ≡ true
    → (elem e.source (ids nodes) ≡ true) × (elem e.target (ids nodes) ≡ true)
on_some_page-Known nodes [] e h a = ground (arith, a)
on_some_page-Known nodes (pg ∷ pages) e h a = ground (
  arith,
  any-Known nodes pg.1 e.source h.0,
  any-Known nodes pg.1 e.target h.0,
  on_some_page-Known nodes pages e h.1,
  a,
)

module _ (lower_of : Str → Str) where
  add_entities-IsState :
      (entities : List Entity) (order : ℕ) (s : State)
      → IsState lower_of s
      → IsState lower_of (add_entities lower_of entities order s)
        × ((d : Entity)
            → has_node lower_of s.nodes d ≡ true
            → has_node lower_of (add_entities lower_of entities order s).nodes d ≡ true)
        × All
            (λ e. has_node lower_of (add_entities lower_of entities order s).nodes e ≡ true)
            entities
  unfolding add_entities
  add_entities-IsState [] order s v = (v, λ d h. h, tt)
  add_entities-IsState (e ∷ entities) order s v =
      let g = add_entity-Grows lower_of order e s v in
      let rest = add_entities-IsState entities (suc order) (add_entity lower_of order e s) g.kept in
      (rest.0, λ d h. rest.1 d (g.old d h), (rest.1 e g.added, rest.2))

  -- An extraction with an accepted alignment has a node of its lowered text and its class.
  abbrev pub HasNode : List Node → Extraction → Type 0
  HasNode nodes ext =
      (status : Str)
      → ext.alignment ≡ some status
      → elem status accepted_alignments ≡ true
      → any
          (λ (x : Node).
            str_eq (lower_of ext.text) (lower_of x.entity.name)
            && str_eq ext.kind x.entity.type_name)
          nodes
        ≡ true

  abbrev HasEntity : List Node → Entity → Type 0
  HasEntity nodes e = has_node lower_of nodes e ≡ true

  first_HasNode :
      (nodes : List Node) (ext : Extraction) (entity : Str → Entity) (more rest : List Entity)
      → ((status : Str) → (entity status).name ≡ ext.text)
      → ((status : Str) → (entity status).type_name ≡ ext.kind)
      → All (HasEntity nodes) (keep_accepted ext.alignment entity more ++ rest)
      → HasNode nodes ext × All (HasEntity nodes) (more ++ rest)
  unfolding keep_accepted
  first_HasNode nodes ext entity more rest named typed h = aligned ext.alignment refl h
    where
      kept :
          (s : Str) {b : Bool}
          → elem s accepted_alignments ≡ b
          → All (HasEntity nodes) (keep_accepted (some s) entity more ++ rest)
          → All (HasEntity nodes) ((if b then entity s ∷ more else more) ++ rest)
      kept s e all =
          subst (λ b. All (HasEntity nodes) ((if b then entity s ∷ more else more) ++ rest)) e all

      named_node : Str → Str → Node → Bool
      named_node name kind x =
          str_eq (lower_of name) (lower_of x.entity.name) && str_eq kind x.entity.type_name

      keyed :
          (s : Str) → HasEntity nodes (entity s) → any (named_node ext.text ext.kind) nodes ≡ true
      keyed s has =
          subst (λ k. any (named_node ext.text k) nodes ≡ true) (typed s)
            (subst (λ n. any (named_node n (entity s).type_name) nodes ≡ true) (named s) has)

      aligned :
          (found : Option Str)
          → ext.alignment ≡ found
          → All (HasEntity nodes) (keep_accepted found entity more ++ rest)
          → HasNode nodes ext × All (HasEntity nodes) (more ++ rest)
      aligned none is h = (λ status has. absurd (ground (arith, is, has)), h)
      aligned (some s) is h = elim (Bool-cases (elem s accepted_alignments)) [
        | inr refused ↦ (
          λ status has accepts. absurd (ground (arith, is, has, accepts, refused)),
          kept s refused h,
        )
        | inl good ↦ let both = kept s good h in (λ status has accepts. keyed s both.0, both.1)
      ]

  page_entities-HasNode :
      (nodes : List Node) (page : ℕ) (doc : Str) (exts : List Extraction) (rest : List Entity)
      → All (HasEntity nodes) (page_entities page doc exts ++ rest)
      → All (HasNode nodes) exts × All (HasEntity nodes) rest
  unfolding page_entities
  page_entities-HasNode nodes page doc [] rest h = (tt, h)
  page_entities-HasNode nodes page doc (ext ∷ exts) rest h =
      let more = page_entities page doc exts in
      let one =
        first_HasNode nodes ext (entity_of page doc ext) more rest (λ s. refl) (λ s. refl) h in
      let others = page_entities-HasNode nodes page doc exts rest one.1 in
      ((one.0, others.0), others.1)

  -- Every extraction of the list that belongs to a page has its node.
  raw_entities-HasNode :
      (nodes : List Node) (pages : List PageText) (docs : List (List Extraction)) (doc : Str)
      (i : ℕ) (page : PageText) (exts : List Extraction)
      → All (HasEntity nodes) (raw_entities pages docs doc)
      → get_elem? pages i ≡ some page
      → get_elem? docs i ≡ some exts
      → All (HasNode nodes) exts
  unfolding raw_entities
  raw_entities-HasNode nodes [] docs doc i page exts h p d = absurd (ground (arith, p))
  raw_entities-HasNode nodes (x ∷ pages) [] doc i page exts h p d = absurd (ground (arith, d))
  raw_entities-HasNode nodes (x ∷ pages) (es ∷ docs) doc zero page exts h p d =
      subst (All (HasNode nodes)) (ground (arith, d))
        (page_entities-HasNode nodes x.page_idx doc es (raw_entities pages docs doc) h).0
  raw_entities-HasNode nodes (x ∷ pages) (es ∷ docs) doc (suc i) page exts h p d =
      raw_entities-HasNode nodes pages docs doc i page exts
        (page_entities-HasNode nodes x.page_idx doc es (raw_entities pages docs doc) h).1
        (ground (arith, p)) (ground (arith, d))

  -- What the graph of a document is: no two nodes have both the same lowered name and the same
  -- type, every accepted extraction of every page has a node, and every edge joins two nodes.
  pub record IsGraph (pages : List PageText) (docs : List (List Extraction))
      (g : List Node × List Edge) : Type 0 where
    pub distinct : Unique (same_key lower_of) g.0
    pub covered :
        (i : ℕ) (page : PageText) (exts : List Extraction)
        → get_elem? pages i ≡ some page
        → get_elem? docs i ≡ some exts
        → All (HasNode g.0) exts
    pub joined : All (Between g.0) g.1

  -- build_kg always returns a graph, whatever was extracted: no index is out of range, no two of
  -- its nodes have both the same lowered name and the same type, every extraction with an accepted
  -- alignment, of each page that has a list of them at its position, has a node of its lowered text
  -- and its class, and every edge joins the ids of two nodes, the smaller id first.
  pub build_kg-IsGraph :
      (pages : List PageText) (docs : List (List Extraction)) (doc : Str)
      → ((g : List Node × List Edge) × (build_kg lower_of pages docs doc ≡ some g)
          × IsGraph pages docs g)
  unfolding build_kg
  build_kg-IsGraph pages docs doc =
      let entities = raw_entities pages docs doc in
      let s = add_entities lower_of entities 0 empty_state in
      let kept =
        add_entities-IsState entities 0 empty_state
          (record { numbered = tt; unique = tt; indexed = tt }) in
      let placed = positioned_nodes-Known s.nodes s.positions kept.0.indexed in
      let edges = build_sparse_cooccurrence_edges placed.0 doc in
      (
        (s.nodes, edges),
        rw placed.1 refl,
        record {
          distinct = kept.0.unique;
          covered = λ i page exts. raw_entities-HasNode s.nodes pages docs doc i page exts kept.2;
          joined =
              All-mono (IsEdge placed.0 doc) (Between s.nodes) edges
                (λ e v.
                  let ends = on_some_page-Known s.nodes placed.0 e placed.2 v.link.0 in
                  (ends.0, ends.1, v.link.1))
                (build_sparse_cooccurrence_edges_lem placed.0 doc).0;
        },
      )
