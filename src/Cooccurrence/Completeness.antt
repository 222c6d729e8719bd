-- ===== src/Cooccurrence/Completeness.antt =====
-- A short page keeps every pair of its entities, and the one long page of a document only a bounded
-- number.
use graphrag_agent.Cooccurrence.Soundness.{listed, str_lt_total, any-map_node}
use graphrag_agent.Base.{
  ℕ, zero, suc, ◌+◌, ◌-◌, ◌*◌, ◌≤◌, ◌<◌, ◌≡◌, refl, ap, ◌∙◌, Bool, true, false, ◌||◌, inl, inr,
  List, [], ◌∷◌, ◌++◌, map, leb, ltb, length, take, any, length-append, length-take-le, arith,
  Bool-cases, length-map,
}
use graphrag_agent.Base.Int.{ℤ}
use graphrag_agent.Base.Text.{Str, str_eq, str_eq_iff, str_eq_refl, str_lt, nonempty}
use graphrag_agent.Base.Sort.{
  sort_by, add, add_all, length-sort_by, any-sort_by, any-add_all, any-add_all_old,
}
use graphrag_agent.Cooccurrence.Pairs.{
  Page, Placed, Pair, note_position, positions, placed_le, node_of, ordered, make_pair, pairs_from,
  reach_of, pair_eq, page_pairs, select_pairs, neighbor_pairs, pair_le, edge_of,
  build_sparse_cooccurrence_edges, max_page_clique_nodes, max_neighbors_per_node,
}

length-add_all-le : (xs set : List Pair) → length (add_all pair_eq xs set) ≤ length xs + length set
unfolding add_all add
length-add_all-le [] set = omega arith
length-add_all-le (x ∷ xs) set = ground (arith, length-add_all-le xs (add pair_eq x set))

length-pairs_from-le :
    (page : ℤ) (reach : ℕ) (ids : List Str)
    → length (pairs_from page reach ids) ≤ reach * length ids
unfolding pairs_from
length-pairs_from-le page reach [] = omega arith
length-pairs_from-le page reach (x ∷ ids) = omega (
  arith,
  length-append (map (make_pair page x) (take reach ids)) (pairs_from page reach ids),
  length-map (make_pair page x) (take reach ids),
  length-take-le reach ids,
  length-pairs_from-le page reach ids,
)

length-note_position-le :
    (id : Str) (p : ℤ) (qs : List Placed) → length (note_position id p qs) ≤ suc (length qs)
unfolding note_position
length-note_position-le id p [] = omega arith
length-note_position-le id p (q ∷ qs) = ground (arith, length-note_position-le id p qs)

length-positions-le :
    (nodes : List (ℤ × Str)) (seen : List Placed)
    → length (positions nodes seen) ≤ length nodes + length seen
unfolding positions
length-positions-le [] seen = omega arith
length-positions-le ((p, id) ∷ nodes) seen = ground (
  arith,
  length-positions-le nodes (note_position id p seen),
  length-positions-le nodes seen,
  length-note_position-le id p seen,
)

pub length-ordered-le : (nodes : List (ℤ × Str)) → length (ordered nodes) ≤ length nodes
unfolding ordered
length-ordered-le nodes = omega (
  arith,
  length-map node_of (sort_by placed_le (positions nodes [])),
  length-sort_by placed_le (positions nodes []),
  length-positions-le nodes [],
)

-- A single page with more entities than the limit gets at most `reach` links for each of them, not
-- the quadratic number of its pairs; so do the edges that are built, with the limits of the source.
pub length-neighbor_pairs-le :
    (limit reach : ℕ) (page : ℤ) (nodes : List (ℤ × Str))
    → limit < length (ordered nodes)
    → length (neighbor_pairs limit reach ((page, nodes) ∷ [])) ≤ reach * length (ordered nodes)
unfolding neighbor_pairs select_pairs page_pairs reach_of
length-neighbor_pairs-le limit reach page nodes h = ground (
  arith,
  length-add_all-le (pairs_from page reach (ordered nodes)) [],
  length-pairs_from-le page reach (ordered nodes),
)

pub length-build-le :
    (page : ℤ) (nodes : List (ℤ × Str)) (doc : Str)
    → max_page_clique_nodes < length (ordered nodes)
    → length (build_sparse_cooccurrence_edges ((page, nodes) ∷ []) doc) ≤ 4 * length nodes
unfolding build_sparse_cooccurrence_edges
length-build-le page nodes doc h =
    let pairs : List Pair =
      neighbor_pairs max_page_clique_nodes max_neighbors_per_node ((page, nodes) ∷ []) in
    omega (
      arith,
      length-map (edge_of doc) (sort_by pair_le pairs),
      length-sort_by pair_le pairs,
      length-neighbor_pairs-le max_page_clique_nodes max_neighbors_per_node page nodes h,
      length-ordered-le nodes,
    )

any-append : (p : Pair → Bool) (xs ys : List Pair) → any p (xs ++ ys) ≡ (any p xs || any p ys)
any-append p [] ys = refl
any-append p (x ∷ xs) ys = ground (arith, any-append p xs ys)

pub pair_eq_refl : (p : Pair) → pair_eq p p ≡ true
pair_eq_refl p = ground (arith, str_eq_refl p.left, str_eq_refl p.right)

pub pair_eq_exact : (p q : Pair) → pair_eq p q ≡ true → p ≡ q
pair_eq_exact p q h = ground (arith, str_eq_iff p.left q.left, str_eq_iff p.right q.right)

str_lt_asym : (a b : Str) → str_lt a b ≡ true → str_lt b a ≡ false
unfolding str_lt
str_lt_asym a [] h = absurd (ground arith)
str_lt_asym [] (d ∷ b) h = refl
str_lt_asym (c ∷ a) (d ∷ b) h = ground (arith, str_lt_asym a b)

pub make_pair_comm :
    (page : ℤ) (a b : Str) → str_eq a b ≡ false → make_pair page a b ≡ make_pair page b a
unfolding make_pair
make_pair_comm page a b e = ground (arith, str_lt_asym a b, str_lt_asym b a, str_lt_total a b e)

note_position-keeps :
    (x id : Str) (p : ℤ) (qs : List Placed)
    → (str_eq x id || any (λ q. str_eq x q.node) qs) ≡ true
    → any (λ q. str_eq x q.node) (note_position id p qs) ≡ true
unfolding note_position
note_position-keeps x id p [] h = ground arith
note_position-keeps x id p (q ∷ qs) h =
    ground (arith, note_position-keeps x id p qs, str_eq_iff q.node id, h)

positions-keeps :
    (x : Str) (nodes : List (ℤ × Str)) (seen : List Placed)
    → nonempty x ≡ true
    → (any (λ n. str_eq n.1 x) nodes || any (λ q. str_eq x q.node) seen) ≡ true
    → any (λ q. str_eq x q.node) (positions nodes seen) ≡ true
unfolding positions
positions-keeps x [] seen ne h = h
positions-keeps x ((p, id) ∷ nodes) seen ne h = elim (Bool-cases (nonempty id)) [
  | inl e ↦ rw e (
      positions-keeps x nodes (note_position id p seen) ne
        (ground (arith, note_position-keeps x id p seen, str_eq_iff id x, str_eq_iff x id, h)))
  | inr e ↦ rw e (positions-keeps x nodes seen ne (ground (arith, str_eq_iff id x, h, ne, e)))
]

any-ordered :
    (nodes : List (ℤ × Str)) (x : Str)
    → listed nodes x ≡ true
    → any (str_eq x) (ordered nodes) ≡ true
unfolding ordered
any-ordered nodes x h =
    any-map_node x (sort_by placed_le (positions nodes []))
    ∙ any-sort_by placed_le (λ q. str_eq x q.node) (positions nodes [])
    ∙ positions-keeps x nodes [] (ground (arith, h)) (ground (arith, h))

take_all : (n : ℕ) (ids : List Str) → length ids ≤ n → take n ids ≡ ids
take_all zero [] h = refl
take_all zero (x ∷ ids) h = absurd (omega arith)
take_all (suc n) [] h = refl
take_all (suc n) (x ∷ ids) h = ap (λ (l : List Str). x ∷ l) (take_all n ids (omega arith))

any-make_pair :
    (page : ℤ) (x b : Str) (ids : List Str)
    → any (str_eq b) ids ≡ true
    → any (pair_eq (make_pair page x b)) (map (make_pair page x) ids) ≡ true
any-make_pair page x b [] h = absurd (ground arith)
any-make_pair page x b (y ∷ ids) h = elim (Bool-cases (str_eq b y)) [
  | inl e ↦
      let same : b ≡ y = (str_eq_iff b y).0 e in
      rw (ap (make_pair page x) same) (rw (pair_eq_refl (make_pair page x y)))
  | inr e ↦ ground (arith, any-make_pair page x b ids, e, h)
]

pairs_from_complete :
    (page : ℤ) (reach : ℕ) (a b : Str) (ids : List Str)
    → length ids ≤ suc reach
    → str_eq a b ≡ false
    → any (str_eq a) ids ≡ true
    → any (str_eq b) ids ≡ true
    → any (pair_eq (make_pair page a b)) (pairs_from page reach ids) ≡ true
unfolding pairs_from
pairs_from_complete page reach a b [] n e ha hb = absurd (ground arith)
pairs_from_complete page reach a b (x ∷ ids) n e ha hb =
    any-append (pair_eq (make_pair page a b)) (map (make_pair page x) (take reach ids))
      (pairs_from page reach ids)
    ∙ rw (take_all reach ids (omega arith)) (elim (Bool-cases (str_eq a x)) [
      | inl ax ↦ ground (arith, from_first ax)
      | inr ax ↦ elim (Bool-cases (str_eq b x)) [
        | inl bx ↦ ground (arith, from_second ax bx)
        | inr bx ↦ ground (
          arith,
          pairs_from_complete page reach a b ids (omega arith) e (ground (arith, ax, ha))
              (ground (arith, bx, hb)),
        )
      ]
    ])
  where
    from_first :
        str_eq a x ≡ true → any (pair_eq (make_pair page a b)) (map (make_pair page x) ids) ≡ true
    from_first ax =
        let same : a ≡ x = (str_eq_iff a x).0 ax in
        rw (ap (λ (z : Str). make_pair page z b) same) (
          any-make_pair page x b ids
            (ground (arith, hb, e, ax, str_eq_iff a x, str_eq_iff b x, str_eq_iff a b)))

    from_second :
        str_eq a x ≡ false
        → str_eq b x ≡ true
        → any (pair_eq (make_pair page a b)) (map (make_pair page x) ids) ≡ true
    from_second ax bx =
        let same : b ≡ x = (str_eq_iff b x).0 bx in
        rw (make_pair_comm page a b e) (
          rw (ap (λ (z : Str). make_pair page z a) same)
            (any-make_pair page x a ids (ground (arith, ha, ax))))

select_pairs-keeps :
    (physical : Bool) (limit reach : ℕ) (q : Pair) (pages : List Page) (set : List Pair)
    → any (pair_eq q) set ≡ true
    → any (pair_eq q) (select_pairs physical limit reach pages set) ≡ true
unfolding select_pairs
select_pairs-keeps physical limit reach q [] set h = h
select_pairs-keeps physical limit reach q (page ∷ pages) set h =
    select_pairs-keeps physical limit reach q pages
      (add_all pair_eq (page_pairs physical limit reach page) set)
      (any-add_all_old pair_eq pair_eq_refl q (page_pairs physical limit reach page) set h)

select_pairs-has :
    (physical : Bool) (limit reach : ℕ) (q : Pair) (before : List Page) (page : Page)
    (after : List Page) (set : List Pair)
    → any (pair_eq q) (page_pairs physical limit reach page) ≡ true
    → any (pair_eq q) (select_pairs physical limit reach (before ++ page ∷ after) set) ≡ true
unfolding select_pairs
select_pairs-has physical limit reach q [] page after set h =
    select_pairs-keeps physical limit reach q after
      (add_all pair_eq (page_pairs physical limit reach page) set)
      (any-add_all pair_eq pair_eq_exact pair_eq_refl q (page_pairs physical limit reach page) set
        h)
select_pairs-has physical limit reach q (p ∷ before) page after set h =
    select_pairs-has physical limit reach q before page after
      (add_all pair_eq (page_pairs physical limit reach p) set) h

page_pairs_complete :
    (physical : Bool) (limit reach : ℕ) (page : ℤ) (nodes : List (ℤ × Str)) (a b : Str)
    → (physical || leb (length (ordered nodes)) limit) ≡ true
    → listed nodes a ≡ true
    → listed nodes b ≡ true
    → str_eq a b ≡ false
    → any (pair_eq (make_pair page a b)) (page_pairs physical limit reach (page, nodes)) ≡ true
unfolding page_pairs reach_of
page_pairs_complete physical limit reach page nodes a b small ha hb e = rw small (
    pairs_from_complete page (length (ordered nodes) - 1) a b (ordered nodes) (omega arith) e
      (any-ordered nodes a ha) (any-ordered nodes b hb))

-- If there are several pages, or the page has at most `limit` entities, then every two different
-- entities of a page are linked on it.
pub neighbor_pairs_complete :
    (limit reach : ℕ) (before after : List Page) (page : ℤ) (nodes : List (ℤ × Str)) (a b : Str)
    → (ltb 1 (length (before ++ (page, nodes) ∷ after)) || leb (length (ordered nodes)) limit)
      ≡ true
    → listed nodes a ≡ true
    → listed nodes b ≡ true
    → str_eq a b ≡ false
    → any
        (pair_eq (make_pair page a b))
        (neighbor_pairs limit reach (before ++ (page, nodes) ∷ after))
      ≡ true
unfolding neighbor_pairs
neighbor_pairs_complete limit reach before after page nodes a b small ha hb e =
    select_pairs-has _ limit reach (make_pair page a b) before (page, nodes) after []
      (page_pairs_complete _ limit reach page nodes a b small ha hb e)
