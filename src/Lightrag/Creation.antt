-- ===== src/Lightrag/Creation.antt =====
-- How a worker of adapters.py comes to an instance: it is found, or made under the lock of its
-- workspace.
use graphrag_agent.Base.{
  ℕ, ◌+◌, ◌≡◌, refl, ap, ◌∙◌, true, false, some, List, [], ◌∷◌, ◌++◌, arith, All, All-rest, inl,
  inr, Bool-cases, subst, All-init, All-append,
}
use graphrag_agent.Base.Text.{Str, str_eq, str_eq_iff, str_eq_refl}
use graphrag_agent.Base.Dict.{get, get-put}
use graphrag_agent.Lightrag.Instances.{
  Cache, look_up, with_lock, settle, instance_or, or_zero, or_unlocked,
}
use graphrag_agent.Lightrag.Sharing.{
  Worker, entered, waiting, creating, holding, system, workspace_of, IsHeld, IsShared, creates,
  creators, is_locked, one_if,
}
use graphrag_agent.Lightrag.Leases.{
  step_on, touch_found-active, touch_found-instances, IsHeld-kept, change_kept, creators-split,
}

module _ {R : Type 0} where
  look_up-is_locked :
      (now : ℕ) (ws w : Str) (c : Cache R) → is_locked w (look_up now ws c).0 ≡ is_locked w c
  look_up-is_locked now ws w c =
      ap or_unlocked (get-put ws w (or_unlocked (get ws c.locks)) c.locks)
      ∙ elim (Bool-cases (str_eq ws w)) [
        | inl e ↦ rw e (ap (λ x. or_unlocked (get x c.locks)) ((str_eq_iff ws w).0 e))
        | inr e ↦ rw e refl
      ]

  -- A look-up leaves the counts and the instances.
  pub look_on :
      (now : ℕ) (ws : Str) (c : Cache R) (u v : Worker R) (xs ys : List (Worker R))
      → workspace_of v ≡ workspace_of u
      → ((w : Str) → creates v w ≡ creates u w)
      → IsHeld c v
      → IsShared (system c (xs ++ u ∷ ys))
      → IsShared (system (look_up now ws c).0 (xs ++ v ∷ ys))
  look_on now ws c u v xs ys same idle held s =
      let c' = (look_up now ws c).0 in
      let keeps : (w : Str) → get w c'.instances ≡ get w c.instances =
        λ w. ap (get w) (touch_found-instances now ws (get ws c.instances) c) in
      step_on c c' u v xs ys s same
        (λ w. ap (λ a. or_zero (get w a)) (touch_found-active now ws (get ws c.instances) c))
        (λ w. rw (idle w, look_up-is_locked now ws w c) refl) keeps (IsHeld-kept c c' v keeps held)

  pub lock_taken :
      (ws w : Str) (c : Cache R)
      → is_locked ws c ≡ false
      → one_if (str_eq ws w) + one_if (is_locked w c) ≡ one_if (is_locked w (with_lock ws true c))
  lock_taken ws w c free = elim (Bool-cases (str_eq ws w)) [
    | inl e ↦
        let free' : is_locked w c ≡ false =
          subst (λ x. is_locked x c ≡ false) ((str_eq_iff ws w).0 e) free in
        rw (get-put ws w true c.locks, e, free') refl
    | inr e ↦ rw (get-put ws w true c.locks, e) (omega arith)
  ]

  -- One worker creates the instance of a workspace, and has its lock.
  pub creating_alone :
      (ws : Str) (c : Cache R) (xs ys : List (Worker R))
      → IsShared (system c (xs ++ creating ws ∷ ys))
      → (creators ws (xs ++ ys) ≡ 0) × (is_locked ws c ≡ true)
  creating_alone ws c xs ys s =
      let u : Worker R = creating ws in
      let one : one_if (creates u ws) ≡ 1 = rw (str_eq_refl ws) refl in
      let split = creators-split ws u xs ys in
      elim (Bool-cases (is_locked ws c)) [
        | inl locked ↦ (omega (arith, one, split, s.exclusive ws, ap one_if locked), locked)
        | inr free ↦ absurd (omega (arith, one, split, s.exclusive ws, ap one_if free))
      ]

  -- The lock that a creating worker gives back was taken.
  pub lock_released :
      (ws w : Str) (c : Cache R) (xs ys : List (Worker R))
      → IsShared (system c (xs ++ creating ws ∷ ys))
      → one_if (is_locked w c) ≡ one_if (str_eq ws w) + one_if (is_locked w (with_lock ws false c))
  lock_released ws w c xs ys s = elim (Bool-cases (str_eq ws w)) [
    | inl e ↦
        let taken : is_locked w c ≡ true =
          subst (λ x. is_locked x c ≡ true) ((str_eq_iff ws w).0 e)
            (creating_alone ws c xs ys s).1 in
        rw (get-put ws w false c.locks, e, taken) refl
    | inr e ↦ rw (get-put ws w false c.locks, e) (omega arith)
  ]

  settle-holding :
      (now : ℕ) (ws : Str) (created : R) (c : Cache R) (w : Str) (rag : R)
      → get w c.instances ≡ some rag
      → get w (settle now ws created c).0.instances ≡ some rag
  settle-holding now ws created c w rag h =
      get-put ws w (instance_or (get ws c.instances) created) c.instances
      ∙ elim (Bool-cases (str_eq ws w)) [
        | inl e ↦ rw e (
            ap (λ o. some (instance_or o created))
              (ap (λ x. get x c.instances) ((str_eq_iff ws w).0 e) ∙ h))
        | inr e ↦ rw e h
      ]

  -- The others keep what they have, and none of them creates an instance of the same workspace.
  settle-others :
      (now : ℕ) (ws : Str) (created : R) (c : Cache R) (us : List (Worker R))
      → creators ws us ≡ 0
      → All (IsHeld c) us
      → All (IsHeld (with_lock ws false (settle now ws created c).0)) us
  settle-others now ws created c [] none_left h = tt
  settle-others now ws created c (entered w ∷ us) none_left h =
      (tt, settle-others now ws created c us (omega (arith, none_left)) h.1)
  settle-others now ws created c (waiting w ∷ us) none_left h =
      (tt, settle-others now ws created c us (omega (arith, none_left)) h.1)
  settle-others now ws created c (creating w ∷ us) none_left h =
      let apart : str_eq ws w ≡ false =
        ground (arith, none_left, str_eq_iff ws w, str_eq_iff w ws) in
      (
        get-put ws w (instance_or (get ws c.instances) created) c.instances ∙ rw apart h.0,
        settle-others now ws created c us (omega (arith, none_left)) h.1,
      )
  settle-others now ws created c (holding w rag ∷ us) none_left h = (
    settle-holding now ws created c w rag h.0,
    settle-others now ws created c us (omega (arith, none_left)) h.1,
  )

  pub settle_kept :
      (now : ℕ) (ws : Str) (created : R) (c : Cache R) (xs ys : List (Worker R))
      → IsShared (system c (xs ++ creating ws ∷ ys))
      → IsShared (
          system
            (with_lock ws false (settle now ws created c).0)
            (xs ++ holding ws (settle now ws created c).1 ∷ ys))
  settle_kept now ws created c xs ys s =
      let c' = with_lock ws false (settle now ws created c).0 in
      let v = holding ws (settle now ws created c).1 in
      let others = settle-others now ws created c (xs ++ ys) (creating_alone ws c xs ys s).0 (
        All-append (IsHeld c) xs ys (All-init (IsHeld c) xs (creating ws ∷ ys) s.held)
          (All-rest (IsHeld c) xs (creating ws ∷ ys) s.held).1) in
      let here : get ws c'.instances ≡ some (settle now ws created c).1 =
        get-put ws ws (instance_or (get ws c.instances) created) c.instances
        ∙ rw (str_eq_refl ws) refl in
      change_kept c c' (creating ws) v xs ys s refl (λ w. refl)
        (λ w. omega (arith, lock_released ws w c xs ys s))
        (All-append (IsHeld c') xs (v ∷ ys) (All-init (IsHeld c') xs ys others)
          (here, All-rest (IsHeld c') xs ys others))
