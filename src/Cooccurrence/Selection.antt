-- ===== src/Cooccurrence/Selection.antt =====
-- What `select_sparse_layout_edges` keeps and drops.
use graphrag_agent.Base.{
  ◌≡◌, refl, Bool, true, false, inl, inr, List, [], ◌∷◌, any, All, arith, Bool-cases, subst, sym,
}
use graphrag_agent.Base.Text.{str_eq, str_eq_iff, str_eq_refl}
use graphrag_agent.Base.Sort.{Unique}
use graphrag_agent.Cooccurrence.Completeness.{pair_eq_refl, make_pair_comm, pair_eq_exact}
use graphrag_agent.Cooccurrence.Layout.{
  Node, Edge, Key, Allowed, co_occurs, relation_of, page_of, key_of, key_eq, is_dropped,
  select_edges, select_sparse_layout_edges, shown_pairs,
}

key_eq_refl : (k : Key) → key_eq k k ≡ true
key_eq_refl k = ground (arith, str_eq_refl k.doc, pair_eq_refl k.ends, str_eq_refl k.relation)

key_eq_exact : (k j : Key) → key_eq k j ≡ true → k ≡ j
key_eq_exact k j h =
    ground
      (arith, str_eq_iff k.doc j.doc, str_eq_iff k.relation j.relation, pair_eq_exact k.ends j.ends)

key_differs :
    (k j : Key) (seen : List Key)
    → any (key_eq k) seen ≡ true
    → any (key_eq j) seen ≡ false
    → key_eq k j ≡ false
key_differs k j seen h u = elim (Bool-cases (key_eq k j)) [
  | inl e ↦
      absurd
        (ground (arith, h, subst (λ z. any (key_eq z) seen ≡ false) (sym (key_eq_exact k j e)) u))
  | inr e ↦ e
]

abbrev pub same_key : Edge → Edge → Bool
same_key a b = key_eq (key_of a) (key_of b)

-- The first list is the second with some elements left out.
pub data IsSublist : List Edge → List Edge → Type 0 where
  nil : IsSublist [] []
  skip : {e : Edge} {xs ys : List Edge} → IsSublist xs ys → IsSublist xs (e ∷ ys)
  take : {e : Edge} {xs ys : List Edge} → IsSublist xs ys → IsSublist (e ∷ xs) (e ∷ ys)

module _ (allowed : Allowed) where
  select_edges-IsSublist :
      (edges : List Edge) (seen : List Key) → IsSublist (select_edges allowed seen edges) edges
  unfolding select_edges
  select_edges-IsSublist [] seen = nil
  select_edges-IsSublist (e ∷ edges) seen = ground (
    arith,
    skip {e = e} (select_edges-IsSublist edges seen),
    take {e = e} (select_edges-IsSublist edges (key_of e ∷ seen)),
  )

  -- Nothing that was seen before is selected.
  select_edges-unseen :
      (k : Key) (edges : List Edge) (seen : List Key)
      → any (key_eq k) seen ≡ true
      → any (λ e. key_eq k (key_of e)) (select_edges allowed seen edges) ≡ false
  unfolding select_edges
  select_edges-unseen k [] seen h = refl
  select_edges-unseen k (e ∷ edges) seen h = ground (
    arith,
    select_edges-unseen k edges seen h,
    select_edges-unseen k edges (key_of e ∷ seen),
    key_differs k (key_of e) seen h,
    h,
  )

  select_edges-Unique :
      (edges : List Edge) (seen : List Key) → Unique same_key (select_edges allowed seen edges)
  unfolding select_edges
  select_edges-Unique [] seen = tt
  select_edges-Unique (e ∷ edges) seen = ground (
    arith,
    select_edges-Unique edges seen,
    select_edges-Unique edges (key_of e ∷ seen),
    select_edges-unseen (key_of e) edges (key_of e ∷ seen),
    key_eq_refl (key_of e),
  )

  select_edges-kept :
      (edges : List Edge) (seen : List Key)
      → All (λ e. is_dropped allowed (key_of e) ≡ false) (select_edges allowed seen edges)
  unfolding select_edges
  select_edges-kept [] seen = tt
  select_edges-kept (e ∷ edges) seen =
      ground (arith, select_edges-kept edges seen, select_edges-kept edges (key_of e ∷ seen))

  -- An edge that is not dropped for its kind is there, itself or an earlier one of its key.
  select_edges-has :
      (e : Edge) (edges : List Edge) (seen : List Key)
      → any (λ x. same_key e x) edges ≡ true
      → any (key_eq (key_of e)) seen ≡ false
      → is_dropped allowed (key_of e) ≡ false
      → any (λ x. same_key e x) (select_edges allowed seen edges) ≡ true
  unfolding select_edges
  select_edges-has e [] seen h u d = absurd (ground arith)
  select_edges-has e (x ∷ edges) seen h u d = elim (Bool-cases (same_key e x)) [
    | inl s ↦
        let same : key_of e ≡ key_of x = key_eq_exact (key_of e) (key_of x) s in
        rw (subst (λ k. any (key_eq k) seen ≡ false) same u)
          (rw (subst (λ k. is_dropped allowed k ≡ false) same d) (rw s))
    | inr n ↦ ground (
      arith,
      select_edges-has e edges seen (ground (arith, h, n)) u d,
      select_edges-has e edges (key_of x ∷ seen) (ground (arith, h, n)) (ground (arith, n, u)) d,
    )
  ]

-- What is shown is the stored list with some edges left out; no two shown edges have one key
-- (document, unordered ends, relation in upper case, page); and every shown edge of the generated
-- kind joins a pair that `neighbor_pairs` allows for its document.
pub select_sparse_layout_edges_lem :
    (nodes : List Node) (edges : List Edge)
    → let shown = select_sparse_layout_edges nodes edges in
      IsSublist shown edges
      × Unique same_key shown
      × All (λ e. is_dropped (shown_pairs nodes edges) (key_of e) ≡ false) shown
unfolding select_sparse_layout_edges
select_sparse_layout_edges_lem nodes edges = (
  select_edges-IsSublist (shown_pairs nodes edges) edges [],
  select_edges-Unique (shown_pairs nodes edges) edges [],
  select_edges-kept (shown_pairs nodes edges) edges [],
)

-- A stored edge that is of another kind than the generated one, or whose pair is allowed, is shown,
-- itself or another stored edge of its key.
pub select_sparse_layout_edges-has :
    (nodes : List Node) (edges : List Edge) (e : Edge)
    → any (λ x. same_key e x) edges ≡ true
    → is_dropped (shown_pairs nodes edges) (key_of e) ≡ false
    → any (λ x. same_key e x) (select_sparse_layout_edges nodes edges) ≡ true
unfolding select_sparse_layout_edges
select_sparse_layout_edges-has nodes edges e h d =
    select_edges-has (shown_pairs nodes edges) e edges [] h refl d

-- The edge with its ends exchanged.
abbrev pub back : Edge → Edge
back e = record e { source = e.target; target = e.source }

semantic-kept :
    (allowed : Allowed) (e : Edge)
    → str_eq (relation_of e) co_occurs ≡ false
    → is_dropped allowed (key_of e) ≡ false
unfolding is_dropped key_of
semantic-kept allowed e h = ground (arith, h)

key_of-back : (e : Edge) → str_eq e.source e.target ≡ false → key_of (back e) ≡ key_of e
unfolding key_of relation_of
key_of-back e differ = ground (arith, make_pair_comm (page_of e.page) e.source e.target differ)

-- Of a semantic edge and the edge of the same relation, document and page in the opposite
-- direction, only the first is shown: both have one key.
pub reversed_hidden :
    (nodes : List Node) (e : Edge)
    → str_eq e.source e.target ≡ false
    → str_eq (relation_of e) co_occurs ≡ false
    → select_sparse_layout_edges nodes (e ∷ back e ∷ []) ≡ e ∷ []
unfolding select_sparse_layout_edges select_edges
reversed_hidden nodes e differ semantic = ground (
  arith,
  semantic-kept (shown_pairs nodes (e ∷ back e ∷ [])) e semantic,
  key_of-back e differ,
  key_eq_refl (key_of e),
)
