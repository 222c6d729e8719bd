-- ===== src/Builder/Nodes.antt =====
-- The graph that build_kg of kg_builder.py builds: its nodes stand for different entities, and its
-- edges for pairs of its nodes.
use graphrag_agent.Base.{
  ℕ, suc, ◌+◌, ◌<◌, ◌≤◌, ◌≡◌, refl, ap, sym, ◌↔◌, ◌⊎◌, Bool, true, false, ◌||◌, none, some, List,
  [], ◌∷◌, ◌++◌, ◌==◌, length, length-append, any, All, All-mono, arith, Bool-cases, inl, inr,
}
use graphrag_agent.Base.Int.{ℤ}
use graphrag_agent.Base.Text.{Str, str_eq_iff}
use graphrag_agent.Base.Sort.{Unique}
use graphrag_agent.Builder.Graph.{
  Entity, Node, Key, key_eq, key_of, lookup, Positions, note_index, note_page, State, add_entity,
  with_node, with_position, node_id, position_of,
}

key_eq_iff : (a b : Key) → (key_eq a b ≡ true) ↔ ((a.0 ≡ b.0) × (a.1 ≡ b.1))
key_eq_iff a b = (
  λ h. ground (arith, str_eq_iff a.0 b.0, str_eq_iff a.1 b.1, h),
  λ h. ground (arith, str_eq_iff a.0 b.0, str_eq_iff a.1 b.1, h),
)

key_eq_sym : (a b : Key) → key_eq a b ≡ key_eq b a
key_eq_sym a b =
    ground (arith, str_eq_iff a.0 b.0, str_eq_iff a.1 b.1, str_eq_iff b.0 a.0, str_eq_iff b.1 a.1)

-- Every index in the positions is one of a node.
abbrev pub Indexed : ℕ → List (ℕ × ℤ) → Type 0
Indexed n places = All (λ j. j.0 < n) places

abbrev pub AllIndexed : ℕ → Positions → Type 0
AllIndexed n positions = All (λ pg. Indexed n pg.1) positions

note_index-Indexed :
    (n i : ℕ) (p : ℤ) (places : List (ℕ × ℤ))
    → i < n
    → Indexed n places
    → Indexed n (note_index i p places)
unfolding note_index
note_index-Indexed n i p [] lt h = (lt, tt)
note_index-Indexed n i p ((j, q) ∷ places) lt h =
    ground (arith, note_index-Indexed n i p places lt h.1, h.0)

note_page-AllIndexed :
    (n page i : ℕ) (p : ℤ) (positions : Positions)
    → i < n
    → AllIndexed n positions
    → AllIndexed n (note_page page i p positions)
unfolding note_page
note_page-AllIndexed n page i p [] lt h = (note_index-Indexed n i p [] lt tt, tt)
note_page-AllIndexed n page i p ((at, places) ∷ positions) lt h = elim (Bool-cases (at == page)) [
  | inl e ↦ rw e (note_index-Indexed n i p places lt h.0, h.1)
  | inr e ↦ rw e (h.0, note_page-AllIndexed n page i p positions lt h.1)
]

AllIndexed-more :
    (n m : ℕ) (positions : Positions) → n ≤ m → AllIndexed n positions → AllIndexed m positions
AllIndexed-more n m positions le h =
    All-mono (λ pg. Indexed n pg.1) (λ pg. Indexed m pg.1) positions
      (λ pg k. All-mono (λ j. j.0 < n) (λ j. j.0 < m) pg.1 (λ j l. omega (arith, l, le)) k) h

module _ (lower_of : Str → Str) where
  abbrev pub same_key : Node → Node → Bool
  same_key a b = key_eq (key_of lower_of a.entity) (key_of lower_of b.entity)

  -- There is a node for the entity's lowered name and its type.
  abbrev pub has_node : List Node → Entity → Bool
  has_node nodes e = any (λ x. key_eq (key_of lower_of e) (key_of lower_of x.entity)) nodes

  -- `seen` gives each node's key its index.
  abbrev Numbered : ℕ → List (Key × ℕ) → List Node → Type 0
  Numbered n [] [] = Unit {0}
  Numbered n [] (x ∷ nodes) = ⊥
  Numbered n (k ∷ seen) [] = ⊥
  Numbered n (k ∷ seen) (x ∷ nodes) =
      (k.0 ≡ key_of lower_of x.entity) × (k.1 ≡ n) × Numbered (suc n) seen nodes

  lookup-cases :
      (n : ℕ) (seen : List (Key × ℕ)) (nodes : List Node) (e : Entity)
      → Numbered n seen nodes
      → ((lookup (key_of lower_of e) seen ≡ none) × (has_node nodes e ≡ false))
        ⊎ ((i : ℕ) × (lookup (key_of lower_of e) seen ≡ some i)
            × (i < n + length nodes)
            × (has_node nodes e ≡ true))
  unfolding lookup
  lookup-cases n [] [] e h = inl (refl, refl)
  lookup-cases n [] (x ∷ nodes) e h = elim h [ ]
  lookup-cases n ((k, i) ∷ seen) [] e h = elim h [ ]
  lookup-cases n ((k, i) ∷ seen) (x ∷ nodes) e h =
      let shared : key_eq (key_of lower_of e) k
          ≡ key_eq (key_of lower_of e) (key_of lower_of x.entity) =
        ap (key_eq (key_of lower_of e)) h.0 in
      elim (Bool-cases (key_eq (key_of lower_of e) k)) [
        | inl same ↦ inr (i, rw same refl, omega (arith, h.1), rw (sym shared, same) refl)
        | inr other ↦ elim (lookup-cases (suc n) seen nodes e h.2) [
          | inl absent ↦ inl (rw other absent.0, rw (sym shared, other) absent.1)
          | inr (j, found, lt, known) ↦
              inr (j, rw other found, omega (arith, lt), rw (sym shared, other) known)
        ]
      ]

  Numbered-snoc :
      (n : ℕ) (seen : List (Key × ℕ)) (nodes : List Node) (x : Node) (m : ℕ)
      → Numbered n seen nodes
      → m ≡ n + length nodes
      → Numbered n (seen ++ (key_of lower_of x.entity, m) ∷ []) (nodes ++ x ∷ [])
  Numbered-snoc n [] [] x m h eq = (refl, omega (arith, eq), tt)
  Numbered-snoc n [] (y ∷ nodes) x m h eq = elim h [ ]
  Numbered-snoc n (k ∷ seen) [] x m h eq = elim h [ ]
  Numbered-snoc n (k ∷ seen) (y ∷ nodes) x m h eq =
      (h.0, h.1, Numbered-snoc (suc n) seen nodes x m h.2 (omega (arith, eq)))

  any-snoc :
      (y : Node) (nodes : List Node) (x : Node)
      → any (same_key y) (nodes ++ x ∷ []) ≡ (any (same_key y) nodes || same_key y x)
  any-snoc y [] x = ground arith
  any-snoc y (z ∷ nodes) x = ground (arith, any-snoc y nodes x)

  Unique-snoc :
      (nodes : List Node) (x : Node)
      → Unique same_key nodes
      → has_node nodes x.entity ≡ false
      → Unique same_key (nodes ++ x ∷ [])
  Unique-snoc [] x u h = (refl, tt)
  Unique-snoc (y ∷ nodes) x u h = (
    ground (
      arith,
      any-snoc y nodes x,
      u.0,
      h,
      key_eq_sym (key_of lower_of y.entity) (key_of lower_of x.entity),
    ),
    Unique-snoc nodes x u.1 (ground (arith, h)),
  )

  has_node-snoc :
      (nodes : List Node) (x : Node) (e : Entity)
      → has_node (nodes ++ x ∷ []) e
        ≡ (has_node nodes e || key_eq (key_of lower_of e) (key_of lower_of x.entity))
  has_node-snoc [] x e = ground arith
  has_node-snoc (y ∷ nodes) x e = ground (arith, has_node-snoc nodes x e)

  -- What each step of the second phase keeps.
  pub record IsState (s : State) : Type 0 where
    pub numbered : Numbered 0 s.seen s.nodes
    pub unique : Unique same_key s.nodes
    pub indexed : AllIndexed (length s.nodes) s.positions

  -- After an entity's step it has a node, and no node is lost.
  pub record Grows (s s' : State) (e : Entity) : Type 0 where
    pub kept : IsState s'
    pub added : has_node s'.nodes e ≡ true
    pub old : (d : Entity) → has_node s.nodes d ≡ true → has_node s'.nodes d ≡ true

  with_node-IsState :
      (e : Entity) (s : State)
      → IsState s
      → has_node s.nodes e ≡ false
      → IsState (with_node lower_of e s)
  with_node-IsState e s v absent =
      let x : Node = record { id = node_id lower_of e (length s.nodes); entity = e } in
      record {
        numbered = Numbered-snoc 0 s.seen s.nodes x (length s.nodes) v.numbered (omega arith);
        unique = Unique-snoc s.nodes x v.unique absent;
        indexed =
            AllIndexed-more (length s.nodes) (length (s.nodes ++ x ∷ [])) s.positions
              (omega (arith, length-append s.nodes (x ∷ []))) v.indexed;
      }

  with_position-IsState :
      (i order : ℕ) (e : Entity) (s : State)
      → i < length s.nodes
      → IsState s
      → IsState (with_position lower_of i order e s)
  with_position-IsState i order e s lt v = record {
    numbered = v.numbered;
    unique = v.unique;
    indexed =
        note_page-AllIndexed (length s.nodes) e.page i (position_of e.char_start order) s.positions
          lt v.indexed;
  }

  pub add_entity-Grows :
      (order : ℕ) (e : Entity) (s : State) → IsState s → Grows s (add_entity lower_of order e s) e
  unfolding add_entity
  add_entity-Grows order e s v = elim (lookup-cases 0 s.seen s.nodes e v.numbered) [
    | inl absent ↦
        let x : Node = record { id = node_id lower_of e (length s.nodes); entity = e } in
        rw (add_entity, absent.0)
          (record {
            kept =
                with_position-IsState (length s.nodes) order e (with_node lower_of e s)
                  (omega (arith, length-append s.nodes (x ∷ [])))
                  (with_node-IsState e s v absent.1);
            added = ground (
              arith,
              has_node-snoc s.nodes x e,
              key_eq_iff (key_of lower_of e) (key_of lower_of e),
            );
            old = λ d h. ground (arith, has_node-snoc s.nodes x d, h);
          })
    | inr (i, found, lt, known) ↦
        rw (add_entity, found)
          (record {
            kept = with_position-IsState i order e s (omega (arith, lt)) v;
            added = known;
            old = λ d h. h;
          })
  ]
