-- ===== src/Cooccurrence/Soundness.antt =====
-- Every link joins two different entities of its page, in one spelling, and once.
use graphrag_agent.Base.{
  ℕ, ◌≡◌, refl, ◌∙◌, Bool, true, false, ◌&&◌, inl, inr, List, [], ◌∷◌, map, ltb, length, take, any,
  All, All-append, All-take, arith, Bool-cases, All-mono, All-map, All-none, All-both, All-self,
}
use graphrag_agent.Base.Int.{ℤ, eqb_ℤ}
use graphrag_agent.Base.Text.{Str, codes, str_eq, str_eq_iff, str_eq_refl, str_lt, nonempty}
use graphrag_agent.Base.Sort.{
  sort_by, add_all, Unique, All-sort_by, sort_by-Unique, add_all-Unique, All-add_all,
}
use graphrag_agent.Cooccurrence.Pairs.{
  Page, Placed, Pair, Edge, note_position, positions, placed_le, node_of, ordered, make_pair,
  pairs_from, pair_eq, page_pairs, select_pairs, neighbor_pairs, pair_le, edge_of,
  build_sparse_cooccurrence_edges, max_page_clique_nodes, max_neighbors_per_node,
}

-- The id is one of the page's, and not empty.
abbrev pub listed : List (ℤ × Str) → Str → Bool
listed nodes id = nonempty id && any (λ n. str_eq n.1 id) nodes

abbrev same_node : Placed → Placed → Bool
same_node a b = str_eq a.node b.node

str_eq_sym : (a b : Str) → str_eq a b ≡ str_eq b a
str_eq_sym a b = ground (arith, str_eq_iff a b, str_eq_iff b a)

-- Of two different texts one stands before the other.
pub str_lt_total : (a b : Str) → str_eq a b ≡ false → str_lt b a ≡ false → str_lt a b ≡ true
unfolding str_eq str_lt
str_lt_total [] [] e h = absurd (ground arith)
str_lt_total [] (d ∷ b) e h = refl
str_lt_total (c ∷ a) [] e h = absurd (ground arith)
str_lt_total (c ∷ a) (d ∷ b) e h = ground (arith, str_lt_total a b)

note_position-All :
    (P : Str → Bool) (id : Str) (p : ℤ) (qs : List Placed)
    → P id ≡ true
    → All (λ q. P q.node ≡ true) qs
    → All (λ q. P q.node ≡ true) (note_position id p qs)
unfolding note_position
note_position-All P id p [] h k = (h, tt)
note_position-All P id p (q ∷ qs) h k = ground (arith, note_position-All P id p qs h k.1)

note_position-any :
    (x id : Str) (p : ℤ) (qs : List Placed)
    → str_eq x id ≡ false
    → any (λ q. str_eq x q.node) (note_position id p qs) ≡ any (λ q. str_eq x q.node) qs
unfolding note_position
note_position-any x id p [] h = ground arith
note_position-any x id p (q ∷ qs) h = ground (arith, note_position-any x id p qs h)

note_position-Unique :
    (id : Str) (p : ℤ) (qs : List Placed)
    → Unique same_node qs
    → Unique same_node (note_position id p qs)
unfolding note_position
note_position-Unique id p [] u = (refl, tt)
note_position-Unique id p (q ∷ qs) u =
    ground (arith, note_position-Unique id p qs u.1, note_position-any q.node id p qs)

positions-Unique :
    (nodes : List (ℤ × Str)) (seen : List Placed)
    → Unique same_node seen
    → Unique same_node (positions nodes seen)
unfolding positions
positions-Unique [] seen u = u
positions-Unique ((p, id) ∷ nodes) seen u = elim (Bool-cases (nonempty id)) [
  | inl e ↦
      rw e (positions-Unique nodes (note_position id p seen) (note_position-Unique id p seen u))
  | inr e ↦ rw e (positions-Unique nodes seen u)
]

positions-All :
    (P : Str → Bool) (nodes : List (ℤ × Str)) (seen : List Placed)
    → All (λ n. nonempty n.1 ≡ true → P n.1 ≡ true) nodes
    → All (λ q. P q.node ≡ true) seen
    → All (λ q. P q.node ≡ true) (positions nodes seen)
unfolding positions
positions-All P [] seen h k = k
positions-All P ((p, id) ∷ nodes) seen h k = elim (Bool-cases (nonempty id)) [
  | inl e ↦ rw e (
      positions-All P nodes (note_position id p seen) h.1 (note_position-All P id p seen (h.0 e) k))
  | inr e ↦ rw e (positions-All P nodes seen h.1 k)
]

ids_listed :
    (nodes : List (ℤ × Str)) → All (λ n. nonempty n.1 ≡ true → listed nodes n.1 ≡ true) nodes
ids_listed nodes =
    All-mono (λ n. any (λ m. str_eq m.1 n.1) nodes ≡ true)
      (λ n. nonempty n.1 ≡ true → listed nodes n.1 ≡ true) nodes (λ n h e. ground (arith, e, h))
      (All-self (λ a b. str_eq a.1 b.1) (λ n. str_eq_refl n.1) nodes)

pub any-map_node :
    (x : Str) (qs : List Placed) → any (str_eq x) (map node_of qs) ≡ any (λ q. str_eq x q.node) qs
any-map_node x [] = refl
any-map_node x (q ∷ qs) = ground (arith, any-map_node x qs)

map_node-Unique : (qs : List Placed) → Unique same_node qs → Unique str_eq (map node_of qs)
map_node-Unique [] u = tt
map_node-Unique (q ∷ qs) u = (any-map_node q.node qs ∙ u.0, map_node-Unique qs u.1)

pub ordered-Unique : (nodes : List (ℤ × Str)) → Unique str_eq (ordered nodes)
unfolding ordered
ordered-Unique nodes = map_node-Unique (sort_by placed_le (positions nodes [])) (
    sort_by-Unique placed_le same_node (λ a b. str_eq_sym a.node b.node) (positions nodes [])
      (positions-Unique nodes [] tt))

pub ordered-listed : (nodes : List (ℤ × Str)) → All (λ id. listed nodes id ≡ true) (ordered nodes)
unfolding ordered
ordered-listed nodes =
    All-map (λ q. listed nodes q.node ≡ true) (λ id. listed nodes id ≡ true) node_of
      (sort_by placed_le (positions nodes [])) (λ q h. h)
      (All-sort_by placed_le (λ q. listed nodes q.node ≡ true) (positions nodes [])
        (positions-All (listed nodes) nodes [] (ids_listed nodes) tt))

-- A pair of this page: both ends are listed, and the left one stands before the right one.
pub record IsPair (page : ℤ) (nodes : List (ℤ × Str)) (p : Pair) : Type 0 where
  pub on_page : p.page ≡ page
  pub left_listed : listed nodes p.left ≡ true
  pub right_listed : listed nodes p.right ≡ true
  pub in_order : str_lt p.left p.right ≡ true

make_pair-IsPair :
    (page : ℤ) (nodes : List (ℤ × Str)) (x y : Str)
    → listed nodes x ≡ true
    → (listed nodes y ≡ true) × (str_eq x y ≡ false)
    → IsPair page nodes (make_pair page x y)
unfolding make_pair
make_pair-IsPair page nodes x y hx hy = elim (Bool-cases (str_lt y x)) [
  | inl e ↦ rw e (record { on_page = refl; left_listed = hy.0; right_listed = hx; in_order = e })
  | inr e ↦ rw e (record {
    on_page = refl;
    left_listed = hx;
    right_listed = hy.0;
    in_order = str_lt_total x y hy.1 e;
  })
]

pairs_from-IsPair :
    (page : ℤ) (nodes : List (ℤ × Str)) (reach : ℕ) (ids : List Str)
    → All (λ id. listed nodes id ≡ true) ids
    → Unique str_eq ids
    → All (IsPair page nodes) (pairs_from page reach ids)
unfolding pairs_from
pairs_from-IsPair page nodes reach [] h u = tt
pairs_from-IsPair page nodes reach (x ∷ ids) h u =
    All-append (IsPair page nodes) (map (make_pair page x) (take reach ids))
      (pairs_from page reach ids)
      (All-map other (IsPair page nodes) (make_pair page x) (take reach ids)
        (λ y k. make_pair-IsPair page nodes x y h.0 k)
        (All-take other reach ids (
          All-both (λ y. listed nodes y ≡ true) (λ y. str_eq x y ≡ false) ids h.1
            (All-none (str_eq x) ids u.0))))
      (pairs_from-IsPair page nodes reach ids h.1 u.1)
  where
    other : Str → Type 0
    other y = (listed nodes y ≡ true) × (str_eq x y ≡ false)

-- The pair belongs to one of the pages.
abbrev pub on_some_page : List Page → Pair → Bool
on_some_page pages p =
    any (λ pg. eqb_ℤ pg.0 p.page && (listed pg.1 p.left && listed pg.1 p.right)) pages

abbrev pub IsLink : List Page → Pair → Type 0
IsLink pages p = (on_some_page pages p ≡ true) × (str_lt p.left p.right ≡ true)

IsPair-IsLink : (page : Page) (p : Pair) → IsPair page.0 page.1 p → IsLink (page ∷ []) p
IsPair-IsLink page p v = ground (arith, v.on_page, v.left_listed, v.right_listed, v.in_order)

abbrev Makes : (Pair → Type 0) → Page → Type 0
Makes P page = (q : Pair) → IsPair page.0 page.1 q → P q

IsLink-more :
    (page : Page) (pages : List Page) (q : Pair) → IsLink pages q → IsLink (page ∷ pages) q
IsLink-more page pages q h = ground (arith, h)

pages-Makes : (pages : List Page) → All (Makes (IsLink pages)) pages
pages-Makes [] = tt
pages-Makes (page ∷ pages) = (
  λ q v. ground (arith, IsPair-IsLink page q v),
  All-mono (Makes (IsLink pages)) (Makes (IsLink (page ∷ pages))) pages
      (λ pg h q v. IsLink-more page pages q (h q v)) (pages-Makes pages),
)

page_pairs-IsPair :
    (physical : Bool) (limit reach : ℕ) (page : Page)
    → All (IsPair page.0 page.1) (page_pairs physical limit reach page)
unfolding page_pairs
page_pairs-IsPair physical limit reach (page, nodes) =
    pairs_from-IsPair page nodes _ (ordered nodes) (ordered-listed nodes) (ordered-Unique nodes)

select_pairs-All :
    (P : Pair → Type 0) (physical : Bool) (limit reach : ℕ) (pages : List Page) (set : List Pair)
    → All (Makes P) pages
    → All P set
    → All P (select_pairs physical limit reach pages set)
unfolding select_pairs
select_pairs-All P physical limit reach [] set h k = k
select_pairs-All P physical limit reach (page ∷ pages) set h k =
    select_pairs-All P physical limit reach pages
      (add_all pair_eq (page_pairs physical limit reach page) set) h.1
      (All-add_all pair_eq P (page_pairs physical limit reach page) set
        (All-mono (IsPair page.0 page.1) P (page_pairs physical limit reach page) h.0
          (page_pairs-IsPair physical limit reach page))
        k)

select_pairs-Unique :
    (physical : Bool) (limit reach : ℕ) (pages : List Page) (set : List Pair)
    → Unique pair_eq set
    → Unique pair_eq (select_pairs physical limit reach pages set)
unfolding select_pairs
select_pairs-Unique physical limit reach [] set u = u
select_pairs-Unique physical limit reach (page ∷ pages) set u =
    select_pairs-Unique physical limit reach pages
      (add_all pair_eq (page_pairs physical limit reach page) set)
      (add_all-Unique pair_eq (page_pairs physical limit reach page) set u)

pair_eq_sym : (a b : Pair) → pair_eq a b ≡ pair_eq b a
pair_eq_sym a b = ground (arith, str_eq_sym a.left b.left, str_eq_sym a.right b.right)

pub neighbor_pairs-IsLink :
    (limit reach : ℕ) (pages : List Page) → All (IsLink pages) (neighbor_pairs limit reach pages)
unfolding neighbor_pairs
neighbor_pairs-IsLink limit reach pages =
    select_pairs-All (IsLink pages) (ltb 1 (length pages)) limit reach pages [] (pages-Makes pages)
      tt

-- What a built edge is: a link between two entities of one of the pages, in the order of their
-- ids, of the co-occurrence kind and of the document.
pub record IsEdge (pages : List Page) (doc : Str) (e : Edge) : Type 0 where
  pub link : IsLink pages (record { page = e.page; left = e.source; right = e.target })
  pub kind : e.relation ≡ codes "CO_OCCURS_IN"
  pub document : e.doc_id ≡ doc

abbrev pub edge_eq : Edge → Edge → Bool
edge_eq a b = eqb_ℤ a.page b.page && str_eq a.source b.source && str_eq a.target b.target

any-map_edge :
    (doc : Str) (p : Pair) (ps : List Pair)
    → any (edge_eq (edge_of doc p)) (map (edge_of doc) ps) ≡ any (pair_eq p) ps
any-map_edge doc p [] = refl
any-map_edge doc p (q ∷ ps) = ground (arith, any-map_edge doc p ps)

map_edge-Unique :
    (doc : Str) (ps : List Pair) → Unique pair_eq ps → Unique edge_eq (map (edge_of doc) ps)
map_edge-Unique doc [] u = tt
map_edge-Unique doc (p ∷ ps) u = (any-map_edge doc p ps ∙ u.0, map_edge-Unique doc ps u.1)

-- Each edge that is built links two entities of one page, the smaller id first, and no edge stands
-- twice in the list.
pub build_sparse_cooccurrence_edges_lem :
    (pages : List Page) (doc : Str)
    → All (IsEdge pages doc) (build_sparse_cooccurrence_edges pages doc)
      × Unique edge_eq (build_sparse_cooccurrence_edges pages doc)
unfolding build_sparse_cooccurrence_edges neighbor_pairs
build_sparse_cooccurrence_edges_lem pages doc =
    let pairs : List Pair = neighbor_pairs max_page_clique_nodes max_neighbors_per_node pages in
    (
      All-map (IsLink pages) (IsEdge pages doc) (edge_of doc) (sort_by pair_le pairs)
          (λ q h. record { link = h; kind = refl; document = refl })
          (All-sort_by pair_le (IsLink pages) pairs
            (neighbor_pairs-IsLink max_page_clique_nodes max_neighbors_per_node pages)),
      map_edge-Unique doc (sort_by pair_le pairs) (
          sort_by-Unique pair_le pair_eq pair_eq_sym pairs
            (select_pairs-Unique _ max_page_clique_nodes max_neighbors_per_node pages [] tt)),
    )
