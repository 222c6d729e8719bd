-- ===== src/Base/Dict.antt =====
-- A dict from texts, in the order in which its keys came.
use graphrag_agent.Base.{◌≡◌, refl, Option, none, some, List, [], ◌∷◌, if◌then◌else◌, arith}
use graphrag_agent.Base.Text.{Str, str_eq, str_eq_iff}

module _ {ℓ} {A : Type ℓ} where
  abbrev pub keys : List (Str × A) → List Str
  keys [] = []
  keys (x ∷ d) = x.0 ∷ keys d

  -- `d.get(k)`
  unfoldable pub get : Str → List (Str × A) → Option A
  get k [] = none
  get k (x ∷ d) = if str_eq x.0 k then some x.1 else get k d

  -- `d[k] = a`
  unfoldable pub put : Str → A → List (Str × A) → List (Str × A)
  put k a [] = (k, a) ∷ []
  put k a (x ∷ d) = if str_eq x.0 k then (x.0, a) ∷ d else x ∷ put k a d

  -- `d.pop(k, None)`
  unfoldable pub pop : Str → List (Str × A) → List (Str × A)
  pop k [] = []
  pop k (x ∷ d) = if str_eq x.0 k then pop k d else x ∷ pop k d

  pub get-put :
      (k j : Str) (a : A) (d : List (Str × A))
      → get j (put k a d) ≡ (if str_eq k j then some a else get j d)
  unfolding get put
  get-put k j a [] = refl
  get-put k j a (x ∷ d) =
      ground (arith, get-put k j a d, str_eq_iff x.0 k, str_eq_iff x.0 j, str_eq_iff k j)

  pub get-pop :
      (k j : Str) (d : List (Str × A)) → get j (pop k d) ≡ (if str_eq k j then none else get j d)
  unfolding get pop
  get-pop k j [] = ground arith
  get-pop k j (x ∷ d) =
      ground (arith, get-pop k j d, str_eq_iff x.0 k, str_eq_iff x.0 j, str_eq_iff k j)
