-- ===== src/Application/Isolation.antt =====
-- One owner's rows are out of another's reach.
use graphrag_agent.Base.{
  ◌≡◌, ◌⊎◌, refl, sym, ap, ◌∙◌, true, false, inl, inr, none, some, List, [], ◌∷◌, if◌then◌else◌,
  arith, Bool-cases, Option-cases,
}
use graphrag_agent.Base.Text.{Str, str_eq, str_eq_iff, str_eq_refl, or_else}
use graphrag_agent.Application.Rows.{
  Kind, owner_id, fetch, store, save, if_owned, load, legacy_owner_id,
}

-- Setting the owner sets it and leaves the id.
pub record IsKind {ℓ} {A : Type ℓ} (K : Kind A) : Type ℓ where
  pub key_kept : (o : Str) (row : A) → K.key (K.with_owner o row) ≡ K.key row
  pub owner_set : (o : Str) (row : A) → K.owner (K.with_owner o row) ≡ o

module _ {ℓ} {A : Type ℓ} (K : Kind A) where
  pub fetch-store :
      (row : A) (rows : List A) (id : Str)
      → fetch K id (store K row rows)
        ≡ (if str_eq (K.key row) id then some row else fetch K id rows)
  unfolding fetch store
  fetch-store row [] id = refl
  fetch-store row (x ∷ rows) id = ground (
    arith,
    fetch-store row rows id,
    str_eq_iff (K.key x) (K.key row),
    str_eq_iff (K.key x) id,
    str_eq_iff (K.key row) id,
  )

  -- A later store of the same id makes an earlier one undone.
  pub store-store :
      (a b : A) (rows : List A)
      → str_eq (K.key a) (K.key b) ≡ true
      → store K b (store K a rows) ≡ store K b rows
  unfolding store
  store-store a b [] h = rw h refl
  store-store a b (x ∷ rows) h = ground (
    arith,
    store-store a b rows h,
    h,
    str_eq_iff (K.key a) (K.key b),
    str_eq_iff (K.key x) (K.key a),
    str_eq_iff (K.key x) (K.key b),
  )

  pub owner-fetch :
      (id owner : Str) (rows : List A) (row : A)
      → load K id owner rows ≡ some row
      → (fetch K id rows ≡ some row) × (owner_id K row ≡ owner)
  unfolding load
  owner-fetch id owner rows row h = elim (Option-cases (fetch K id rows)) [
    | inl absent ↦ ground (arith, absent, h)
    | inr (x, found) ↦ ground (arith, found, h, str_eq_iff (owner_id K x) owner)
  ]

  pub save_new-store :
      (row : A) (rows : List A)
      → fetch K (K.key row) rows ≡ none
      → K.with_owner (owner_id K row) row ≡ row
      → save K row rows ≡ store K row rows
  unfolding save
  save_new-store row rows absent same = rw (save, same, absent) refl

  -- An owner's row takes the place of its earlier version.
  pub save-store :
      (row old : A) (rows : List A)
      → fetch K (K.key row) rows ≡ some old
      → K.with_owner (owner_id K row) row ≡ row
      → owner_id K old ≡ K.owner row
      → save K row rows ≡ store K row rows
  unfolding save
  save-store row old rows found same mine =
      rw (save, same, found, (str_eq_iff (owner_id K old) (K.owner row)).1 mine) refl

module _ {ℓ} {A : Type ℓ} (K : Kind A) (is_kind : IsKind K) where
  abbrev pub owned_row : A → A
  owned_row row = K.with_owner (owner_id K row) row

  owner_id_again :
      (s : Str) → or_else (or_else s legacy_owner_id) legacy_owner_id ≡ or_else s legacy_owner_id
  owner_id_again [] = refl
  owner_id_again (c ∷ s) = refl

  pub owner-owned_row : (row : A) → owner_id K (owned_row row) ≡ owner_id K row
  owner-owned_row row =
      ap (λ s. or_else s legacy_owner_id) (is_kind.owner_set (owner_id K row) row)
      ∙ owner_id_again (K.owner row)

  -- The row as it is looked up by an owner, when it has another.
  if_owned_other :
      (owner : Str) (row : A)
      → str_eq (owner_id K row) owner ≡ false
      → if_owned K owner (some row) ≡ none
  if_owned_other owner row ne = rw ne refl

  load_stored_other :
      (id other : Str) (row : A) (rows : List A)
      → str_eq (owner_id K row) other ≡ false
      → if_owned K other (fetch K (K.key row) rows) ≡ none
      → load K id other (store K (owned_row row) rows) ≡ load K id other rows
  unfolding load
  load_stored_other id other row rows ne before = elim (Bool-cases (str_eq (K.key row) id)) [
    | inl same ↦
        let e = (str_eq_iff (K.key row) id).0 same in
        rw (fetch-store K (owned_row row) rows id, is_kind.key_kept (owner_id K row) row, same)
          (rw (owner-owned_row row, ne)
            (sym (ap (λ i. if_owned K other (fetch K i rows)) (sym e) ∙ before)))
    | inr apart ↦
        rw (fetch-store K (owned_row row) rows id, is_kind.key_kept (owner_id K row) row, apart)
          refl
  ]

  -- Whatever is saved, every other owner finds under every id what it found before.
  pub load_other-save :
      (id other : Str) (row : A) (rows : List A)
      → str_eq (owner_id K row) other ≡ false
      → load K id other (save K row rows) ≡ load K id other rows
  unfolding save
  load_other-save id other row rows ne = elim (Option-cases (fetch K (K.key row) rows)) [
    | inl absent ↦ rw (save, absent) (load_stored_other id other row rows ne (rw absent refl))
    | inr (old, found) ↦ elim (Bool-cases (str_eq (owner_id K old) (K.owner (owned_row row)))) [
      | inr foreign ↦ rw (save, found, foreign) refl
      | inl mine ↦
          let same =
            (str_eq_iff (owner_id K old) (K.owner (owned_row row))).0 mine
            ∙ is_kind.owner_set (owner_id K row) row in
          rw (save, found, mine)
            (load_stored_other id other row rows ne (rw (found, same, ne) refl))
    ]
  ]

  -- The owner of a row, or the first that saves one under its id, finds what it has saved.
  pub load_own-save :
      (row : A) (rows : List A)
      → (fetch K (K.key row) rows ≡ none)
        ⊎ ((old : A) × (fetch K (K.key row) rows ≡ some old) × (owner_id K old ≡ owner_id K row))
      → load K (K.key row) (owner_id K row) (save K row rows) ≡ some (owned_row row)
  unfolding save load
  load_own-save row rows h =
      let found_new : fetch K (K.key row) (store K (owned_row row) rows) ≡ some (owned_row row) =
        fetch-store K (owned_row row) rows (K.key row)
        ∙ rw (is_kind.key_kept (owner_id K row) row, str_eq_refl (K.key row)) refl in
      let shown : if_owned K (owner_id K row) (fetch K (K.key row) (store K (owned_row row) rows))
          ≡ some (owned_row row) =
        rw (found_new, owner-owned_row row, str_eq_refl (owner_id K row)) refl in
      elim h [
        | inl absent ↦ rw (save, absent) shown
        | inr (old, found, same) ↦
            let mine : str_eq (owner_id K old) (K.owner (owned_row row)) ≡ true =
              (str_eq_iff (owner_id K old) (K.owner (owned_row row))).1
                (same ∙ sym (is_kind.owner_set (owner_id K row) row)) in
            rw (save, found, mine) shown
      ]
