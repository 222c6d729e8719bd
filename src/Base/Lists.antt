-- ===== src/Base/Lists.antt =====
-- Lists measured by native numbers, and predicates over lists by recursion.
use mathlib.Core.Logic.{◌⊎◌, inl, inr}
use Prim.Native.Nat.{ℕ, zero, suc, ◌+◌, ◌≤◌}
use mathlib.Core.Path.{◌≡◌, refl, ap}
use mathlib.Core.Bool.{Bool, true, false, ◌&&◌, ◌||◌}
use mathlib.Core.Option.{Option, none, some}
use mathlib.Core.List.{List, [], ◌∷◌, ◌++◌, map}
use native.Mathlib.Omega.{arith}
use graphrag_agent.Base.Tests.{if◌then◌else◌}

module _ {ℓ} {A : Type ℓ} where
  abbrev pub length : List A → ℕ
  length [] = 0
  length (x ∷ xs) = suc (length xs)

  abbrev pub take : ℕ → List A → List A
  take zero xs = []
  take (suc n) [] = []
  take (suc n) (x ∷ xs) = x ∷ take n xs

  abbrev pub drop : ℕ → List A → List A
  drop zero xs = xs
  drop (suc n) [] = []
  drop (suc n) (x ∷ xs) = drop n xs

  abbrev pub get_elem? : List A → ℕ → Option A
  get_elem? [] i = none
  get_elem? (x ∷ xs) zero = some x
  get_elem? (x ∷ xs) (suc i) = get_elem? xs i

  -- A comprehension's `if`, with a Boolean test.
  abbrev pub keep_if : (A → Bool) → List A → List A
  keep_if p [] = []
  keep_if p (x ∷ xs) = if p x then x ∷ keep_if p xs else keep_if p xs

  abbrev pub all : (A → Bool) → List A → Bool
  all p [] = true
  all p (x ∷ xs) = p x && all p xs

  abbrev pub any : (A → Bool) → List A → Bool
  any p [] = false
  any p (x ∷ xs) = p x || any p xs

  pub length-append : (xs ys : List A) → length (xs ++ ys) ≡ length xs + length ys
  length-append [] ys = omega arith
  length-append (x ∷ xs) ys = omega (arith, length-append xs ys)

  pub length-take-le : (n : ℕ) (xs : List A) → length (take n xs) ≤ n
  length-take-le zero xs = omega arith
  length-take-le (suc n) [] = omega arith
  length-take-le (suc n) (x ∷ xs) = omega (arith, length-take-le n xs)

module _ {ℓ κ} {A : Type ℓ} (P : A → Type κ) where
  abbrev pub All : List A → Type κ
  All [] = Unit
  All (x ∷ xs) = P x × All xs

  pub All-append : (xs ys : List A) → All xs → All ys → All (xs ++ ys)
  All-append [] ys h k = k
  All-append (x ∷ xs) ys h k = (h.0, All-append xs ys h.1 k)

  pub All-take : (n : ℕ) (xs : List A) → All xs → All (take n xs)
  All-take zero xs h = tt
  All-take (suc n) [] h = tt
  All-take (suc n) (x ∷ xs) h = (h.0, All-take n xs h.1)

  pub All-keep_if : (p : A → Bool) (xs : List A) → All xs → All (keep_if p xs)
  All-keep_if p [] h = tt
  All-keep_if p (x ∷ xs) h = ground (arith, All-keep_if p xs h.1)

  -- What a test that the predicate follows from leaves.
  pub All-of-test :
      (p : A → Bool) → ((x : A) → p x ≡ true → P x) → (xs : List A) → All (keep_if p xs)
  All-of-test p sound [] = tt
  All-of-test p sound (x ∷ xs) = ground (arith, sound x, All-of-test p sound xs)

module _ {ℓ} {A : Type ℓ} where
  pub snoc-cases : (xs : List A) → (xs ≡ []) ⊎ ((ys : List A) × (y : A) × (xs ≡ ys ++ y ∷ []))
  snoc-cases [] = inl refl
  snoc-cases (x ∷ xs) = elim (snoc-cases xs) [
    | inl e ↦ inr ([], x, ap (λ (l : List A). x ∷ l) e)
    | inr (ys, y, e) ↦ inr (x ∷ ys, y, ap (λ (l : List A). x ∷ l) e)
  ]

module _ {ℓ κ} {A : Type ℓ} (P : A → Type κ) where
  pub All-init : (xs ys : List A) → All P (xs ++ ys) → All P xs
  All-init [] ys h = tt
  All-init (x ∷ xs) ys h = (h.0, All-init xs ys h.1)

  pub All-rest : (xs ys : List A) → All P (xs ++ ys) → All P ys
  All-rest [] ys h = h
  All-rest (x ∷ xs) ys h = All-rest xs ys h.1

module _ {ℓ κ κ'} {A : Type ℓ} (P : A → Type κ) (Q : A → Type κ') where
  pub All-mono : (xs : List A) → ((x : A) → P x → Q x) → All P xs → All Q xs
  All-mono [] f h = tt
  All-mono (x ∷ xs) f h = (f x h.0, All-mono xs f h.1)

module _ {ℓ κ κ'} {A : Type ℓ} {B : Type κ} (P : A → Type κ') (Q : B → Type κ') (f : A → B) where
  pub All-map : (xs : List A) → ((x : A) → P x → Q (f x)) → All P xs → All Q (map f xs)
  All-map [] g h = tt
  All-map (x ∷ xs) g h = (g x h.0, All-map xs g h.1)

module _ {ℓ} {A : Type ℓ} where
  -- What no element passes, each fails.
  pub All-none : (p : A → Bool) (xs : List A) → any p xs ≡ false → All (λ x. p x ≡ false) xs
  All-none p [] h = tt
  All-none p (x ∷ xs) h = (ground arith, All-none p xs (ground arith))

  pub All-both {κ κ'} :
      (P : A → Type κ) (Q : A → Type κ') (xs : List A)
      → All P xs
      → All Q xs
      → All (λ x. P x × Q x) xs
  All-both P Q [] h k = tt
  All-both P Q (x ∷ xs) h k = ((h.0, k.0), All-both P Q xs h.1 k.1)

  pub All-self :
      (eq : A → A → Bool)
      → ((x : A) → eq x x ≡ true)
      → (xs : List A) → All (λ x. any (λ y. eq y x) xs ≡ true) xs
  All-self eq same [] = tt
  All-self eq same (x ∷ xs) = (
    rw same,
    All-mono (λ y. any (λ z. eq z y) xs ≡ true) (λ y. any (λ z. eq z y) (x ∷ xs) ≡ true) xs
        (λ y h. ground (arith, h)) (All-self eq same xs),
  )

  pub length-map {κ} : {B : Type κ} (f : A → B) (xs : List A) → length (map f xs) ≡ length xs
  length-map f [] = refl
  length-map f (x ∷ xs) = ap suc (length-map f xs)
