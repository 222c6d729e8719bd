-- ===== src/Cooccurrence/Layout.antt =====
-- `select_sparse_layout_edges` of cooccurrence.py: which edges of a stored graph are shown.
use graphrag_agent.Base.{
  ℕ, suc, Bool, false, not, ◌&&◌, ◌||◌, Option, none, some, List, [], ◌∷◌, ◌++◌, if◌then◌else◌, any,
}
use graphrag_agent.Base.Int.{ℤ, pos, eqb_ℤ}
use graphrag_agent.Base.Text.{Str, codes, str_eq, str_lt, nonempty, or_else, upper, parse_int}
use graphrag_agent.Base.Sort.{sort_by, add}
use graphrag_agent.Cooccurrence.Pairs.{
  Page, Pair, make_pair, pair_eq, neighbor_pairs, max_page_clique_nodes, max_neighbors_per_node,
}

-- A field of a JSON record that is read as a number.
pub data Field : Type 0 where
  missing : Field
  number : ℤ → Field
  text : Str → Field

-- `_page`
unfoldable pub page_of : Field → ℤ
unfolding parse_int
page_of missing = pos 0
page_of (number n) = n
page_of (text s) = elim (parse_int s) [ none ↦ pos 0 | some n ↦ n ]

-- `_position`
unfoldable pub position_of : Field → ℤ → ℤ
unfolding parse_int
position_of missing fallback = fallback
position_of (number n) fallback = n
position_of (text s) fallback = elim (parse_int s) [ none ↦ fallback | some n ↦ n ]

-- A node of the graph and an edge; a text that is missing is empty.
pub record Node : Type 0 where
  pub id : Str
  pub source_doc : Str
  pub char_start : Field

pub record Edge : Type 0 where
  pub source : Str
  pub target : Str
  pub relation : Str
  pub doc_id : Str
  pub page : Field

abbrev pub co_occurs : Str
co_occurs = codes "CO_OCCURS_IN"

-- str(edge.get("relation") or "CO_OCCURS_IN").upper()
unfoldable pub relation_of : Edge → Str
unfolding upper
relation_of e = upper (or_else e.relation co_occurs)

-- The last node with this document and id, as a dict comprehension leaves it.
unfoldable pub scoped_node : Str → Str → Option Node → List Node → Option Node
scoped_node doc id found [] = found
scoped_node doc id found (n ∷ nodes) =
    scoped_node doc id
      (if nonempty n.id && (str_eq n.source_doc doc && str_eq n.id id) then some n else found) nodes

unfoldable pub any_node : Str → Option Node → List Node → Option Node
any_node id found [] = found
any_node id found (n ∷ nodes) =
    any_node id (if nonempty n.id && str_eq n.id id then some n else found) nodes

abbrev first_of_two : Option Node → Option Node → Option Node
first_of_two none o = o
first_of_two (some n) o = some n

-- scoped_node_map.get((doc_id, node_id)) or node_map.get(node_id)
unfoldable pub find_node : List Node → Str → Str → Option Node
unfolding scoped_node any_node
find_node nodes doc id = first_of_two (scoped_node doc id none nodes) (any_node id none nodes)

-- The node ids of one page of one document.
pub record Group : Type 0 where
  pub doc : Str
  pub page : ℤ
  pub ids : List Str

-- page_node_ids[(doc, page)].add(id)
unfoldable pub add_id : Str → ℤ → Str → List Group → List Group
unfolding add
add_id doc page id [] = record { doc = doc; page = page; ids = id ∷ [] } ∷ []
add_id doc page id (g ∷ groups) =
    if str_eq g.doc doc && eqb_ℤ g.page page
    then record g { ids = add str_eq id g.ids } ∷ groups
    else g ∷ add_id doc page id groups

abbrev add_known : Option Node → Str → ℤ → Str → List Group → List Group
add_known none doc page id groups = groups
add_known (some n) doc page id groups = add_id doc page id groups

-- the first loop over the edges
unfoldable pub page_node_ids : List Node → List Edge → List Group → List Group
unfolding find_node relation_of page_of add_id
page_node_ids nodes [] groups = groups
page_node_ids nodes (e ∷ edges) groups = page_node_ids nodes edges (
    if str_eq (relation_of e) co_occurs
    then add_known (find_node nodes e.doc_id e.target) e.doc_id (page_of e.page) e.target
        (add_known (find_node nodes e.doc_id e.source) e.doc_id (page_of e.page) e.source groups)
    else groups)

abbrev start_of : Option Node → ℕ → ℤ
start_of none fallback = pos fallback
start_of (some n) fallback = position_of n.char_start (pos fallback)

-- enumerate(sorted(node_ids)): each id with its position
unfoldable pub positioned : List Node → Str → ℕ → List Str → List (ℤ × Str)
unfolding find_node position_of
positioned nodes doc fallback [] = []
positioned nodes doc fallback (id ∷ ids) =
    (start_of (find_node nodes doc id) fallback, id) ∷ positioned nodes doc (suc fallback) ids

abbrev str_le : Str → Str → Bool
str_le a b = not (str_lt b a)

-- A document and its positioned pages.
abbrev pub Pages : Type 0
Pages = List (Str × List Page)

-- scoped_page_nodes[doc][page] = nodes; a document's pages come in the order of the groups
unfoldable pub add_page : Str → Page → Pages → Pages
add_page doc page [] = (doc, page ∷ []) ∷ []
add_page doc page ((d, pages) ∷ docs) =
    if str_eq d doc then (d, pages ++ page ∷ []) ∷ docs else (d, pages) ∷ add_page doc page docs

unfoldable pub scoped_page_nodes : List Node → List Group → Pages → Pages
unfolding positioned sort_by add_page
scoped_page_nodes nodes [] docs = docs
scoped_page_nodes nodes (g ∷ groups) docs =
    scoped_page_nodes nodes groups
      (add_page g.doc (g.page, positioned nodes g.doc 0 (sort_by str_le g.ids)) docs)

abbrev pub Allowed : Type 0
Allowed = List (Str × List Pair)

-- The allowed pairs, under their documents.
unfoldable pub allowed_pairs : Pages → Allowed
allowed_pairs [] = []
allowed_pairs ((doc, pages) ∷ docs) =
    (doc, neighbor_pairs max_page_clique_nodes max_neighbors_per_node pages) ∷ allowed_pairs docs

unfoldable pub is_allowed : Str → Pair → Allowed → Bool
is_allowed doc p [] = false
is_allowed doc p ((d, pairs) ∷ allowed) =
    (str_eq d doc && any (pair_eq p) pairs) || is_allowed doc p allowed

-- (doc_id, left, right, relation, page_idx)
pub record Key : Type 0 where
  pub doc : Str
  pub ends : Pair
  pub relation : Str

abbrev pub key_eq : Key → Key → Bool
key_eq a b = str_eq a.doc b.doc && (pair_eq a.ends b.ends && str_eq a.relation b.relation)

unfoldable pub key_of : Edge → Key
unfolding make_pair page_of relation_of
key_of e = record {
  doc = e.doc_id;
  ends = make_pair (page_of e.page) e.source e.target;
  relation = relation_of e;
}

-- The key is a generated edge's, and its pair is not among the allowed ones.
unfoldable pub is_dropped : Allowed → Key → Bool
unfolding is_allowed
is_dropped allowed k = str_eq k.relation co_occurs && not (is_allowed k.doc k.ends allowed)

-- the last loop
unfoldable pub select_edges : Allowed → List Key → List Edge → List Edge
unfolding is_dropped key_of
select_edges allowed seen [] = []
select_edges allowed seen (e ∷ edges) =
    let skip = select_edges allowed seen edges in
    let take = e ∷ select_edges allowed (key_of e ∷ seen) edges in
    if any (key_eq (key_of e)) seen
    then skip
    else if is_dropped allowed (key_of e)
    then skip
    else take

-- The pairs that the nodes and edges allow.
unfoldable pub shown_pairs : List Node → List Edge → Allowed
unfolding page_node_ids scoped_page_nodes allowed_pairs
shown_pairs nodes edges = allowed_pairs (scoped_page_nodes nodes (page_node_ids nodes edges []) [])

unfoldable pub select_sparse_layout_edges : List Node → List Edge → List Edge
unfolding select_edges shown_pairs
select_sparse_layout_edges nodes edges = select_edges (shown_pairs nodes edges) [] edges
