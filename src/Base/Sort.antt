-- ===== src/Base/Sort.antt =====
-- Python's `sorted` as insertion sort, and sets as lists to which only new elements are added.
use graphrag_agent.Base.{
  suc, ◌≡◌, refl, ap, Bool, true, false, ◌||◌, List, [], ◌∷◌, if◌then◌else◌, arith, any, length,
  All, ◌∙◌, Bool-cases, inl, inr,
}

module _ {ℓ} {A : Type ℓ} (le : A → A → Bool) where
  unfoldable pub insert_by : A → List A → List A
  insert_by x [] = x ∷ []
  insert_by x (y ∷ ys) = if le x y then x ∷ y ∷ ys else y ∷ insert_by x ys

  unfoldable pub sort_by : List A → List A
  unfolding insert_by
  sort_by [] = []
  sort_by (x ∷ xs) = insert_by x (sort_by xs)

  pub any-insert_by :
      (p : A → Bool) (x : A) (xs : List A) → any p (insert_by x xs) ≡ (p x || any p xs)
  unfolding insert_by
  any-insert_by p x [] = refl
  any-insert_by p x (y ∷ ys) = ground (arith, any-insert_by p x ys)

  -- Sorting keeps the elements.
  pub any-sort_by : (p : A → Bool) (xs : List A) → any p (sort_by xs) ≡ any p xs
  unfolding sort_by
  any-sort_by p [] = refl
  any-sort_by p (x ∷ xs) = ground (arith, any-insert_by p x (sort_by xs), any-sort_by p xs)

  length-insert_by : (x : A) (xs : List A) → length (insert_by x xs) ≡ suc (length xs)
  unfolding insert_by
  length-insert_by x [] = refl
  length-insert_by x (y ∷ ys) = ground (arith, length-insert_by x ys)

  pub length-sort_by : (xs : List A) → length (sort_by xs) ≡ length xs
  unfolding sort_by
  length-sort_by [] = refl
  length-sort_by (x ∷ xs) = length-insert_by x (sort_by xs) ∙ ap suc (length-sort_by xs)

  All-insert_by {κ} :
      (P : A → Type κ) (x : A) (xs : List A) → P x → All P xs → All P (insert_by x xs)
  unfolding insert_by
  All-insert_by P x [] p h = (p, tt)
  All-insert_by P x (y ∷ ys) p h = ground (arith, All-insert_by P x ys p h.1, p, h)

  pub All-sort_by {κ} : (P : A → Type κ) (xs : List A) → All P xs → All P (sort_by xs)
  unfolding sort_by
  All-sort_by P [] h = tt
  All-sort_by P (x ∷ xs) h = All-insert_by P x (sort_by xs) h.0 (All-sort_by P xs h.1)

module _ {ℓ} {A : Type ℓ} (eq : A → A → Bool) where
  -- No element equals a later one.
  abbrev pub Unique : List A → Type 0
  Unique [] = Unit {0}
  Unique (x ∷ xs) = (any (eq x) xs ≡ false) × Unique xs

  -- set.add
  unfoldable pub add : A → List A → List A
  add x xs = if any (eq x) xs then xs else x ∷ xs

  -- set.update
  unfoldable pub add_all : List A → List A → List A
  unfolding add
  add_all [] set = set
  add_all (x ∷ xs) set = add_all xs (add x set)

  pub add-Unique : (x : A) (xs : List A) → Unique xs → Unique (add x xs)
  unfolding add
  add-Unique x xs u = ground arith

  pub add_all-Unique : (xs set : List A) → Unique set → Unique (add_all xs set)
  unfolding add_all
  add_all-Unique [] set u = u
  add_all-Unique (x ∷ xs) set u = add_all-Unique xs (add x set) (add-Unique x set u)

  pub All-add_all {κ} :
      (P : A → Type κ) (xs set : List A) → All P xs → All P set → All P (add_all xs set)
  unfolding add_all
  All-add_all P [] set h k = k
  All-add_all P (x ∷ xs) set h k = All-add_all P xs (add x set) h.1 (ground (arith, h, k))

module _ {ℓ} {A : Type ℓ} (eq : A → A → Bool) (same : (x : A) → eq x x ≡ true) where
  any-add : (x y : A) (set : List A) → any (eq y) set ≡ true → any (eq y) (add eq x set) ≡ true
  unfolding add
  any-add x y set h = ground arith

  pub any-add_all_old :
      (y : A) (xs set : List A) → any (eq y) set ≡ true → any (eq y) (add_all eq xs set) ≡ true
  unfolding add_all
  any-add_all_old y [] set h = h
  any-add_all_old y (x ∷ xs) set h = any-add_all_old y xs (add eq x set) (any-add x y set h)

module _ {ℓ} {A : Type ℓ} (eq : A → A → Bool) (exact : (x y : A) → eq x y ≡ true → x ≡ y)
    (same : (x : A) → eq x x ≡ true) where
  any-add_self : (x y : A) (set : List A) → eq y x ≡ true → any (eq y) (add eq x set) ≡ true
  unfolding add
  any-add_self x y set h = ground (arith, exact y x h, h)

  -- What is added is there.
  pub any-add_all :
      (y : A) (xs set : List A) → any (eq y) xs ≡ true → any (eq y) (add_all eq xs set) ≡ true
  unfolding add_all
  any-add_all y [] set h = absurd (ground arith)
  any-add_all y (x ∷ xs) set h = elim (Bool-cases (eq y x)) [
    | inl e ↦ any-add_all_old eq same y xs (add eq x set) (any-add_self x y set e)
    | inr e ↦ any-add_all y xs (add eq x set) (ground arith)
  ]

module _ {ℓ} {A : Type ℓ} (le eq : A → A → Bool) (symm : (x y : A) → eq x y ≡ eq y x) where
  insert_by-Unique :
      (x : A) (xs : List A) → any (eq x) xs ≡ false → Unique eq xs → Unique eq (insert_by le x xs)
  unfolding insert_by
  insert_by-Unique x [] h u = (refl, tt)
  insert_by-Unique x (y ∷ ys) h u =
      ground (arith, insert_by-Unique x ys, any-insert_by le (eq y) x ys, symm x y, h, u)

  pub sort_by-Unique : (xs : List A) → Unique eq xs → Unique eq (sort_by le xs)
  unfolding sort_by
  sort_by-Unique [] u = tt
  sort_by-Unique (x ∷ xs) u =
      insert_by-Unique x (sort_by le xs) (any-sort_by le (eq x) xs ∙ u.0) (sort_by-Unique xs u.1)
