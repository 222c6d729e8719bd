-- ===== src/Lightrag/Leases.antt =====
-- What the leases of adapters.py keep: every lease is counted, and a worker's instance stays cached.
use graphrag_agent.Base.{
  ℕ, zero, suc, ◌+◌, ◌≤◌, ◌≡◌, refl, sym, ap, ◌∙◌, Option, none, some, List, [], ◌∷◌, ◌++◌,
  if◌then◌else◌, arith, All, All-append, All-init, All-rest, All-mono,
}
use graphrag_agent.Base.Text.{Str, str_eq}
use graphrag_agent.Base.Dict.{get, get-put, get-pop}
use graphrag_agent.Lightrag.Instances.{Cache, active_of, touch_found, with_active}
use graphrag_agent.Lightrag.Sharing.{
  Worker, entered, waiting, creating, holding, system, workspace_of, one_if, leases, IsHeld,
  IsShared, creates, creators, is_locked,
}

module _ {R : Type 0} where
  pub leases-split :
      (ws : Str) (u : Worker R) (xs ys : List (Worker R))
      → leases ws (xs ++ u ∷ ys) ≡ one_if (str_eq (workspace_of u) ws) + leases ws (xs ++ ys)
  leases-split ws u [] ys = refl
  leases-split ws u (x ∷ xs) ys = omega (arith, leases-split ws u xs ys)

  pub creators-split :
      (ws : Str) (u : Worker R) (xs ys : List (Worker R))
      → creators ws (xs ++ u ∷ ys) ≡ one_if (creates u ws) + creators ws (xs ++ ys)
  creators-split ws u [] ys = refl
  creators-split ws u (x ∷ xs) ys = omega (arith, creators-split ws u xs ys)

  pub creators_le : (ws : Str) (us : List (Worker R)) → creators ws us ≤ leases ws us
  creators_le ws [] = omega arith
  creators_le ws (u ∷ us) = ground (arith, creators_le ws us)

  pub IsHeld-kept :
      (c c' : Cache R) (u : Worker R)
      → ((ws : Str) → get ws c'.instances ≡ get ws c.instances)
      → IsHeld c u
      → IsHeld c' u
  IsHeld-kept c c' (entered ws) kept h = tt
  IsHeld-kept c c' (waiting ws) kept h = tt
  IsHeld-kept c c' (creating ws) kept h = kept ws ∙ h
  IsHeld-kept c c' (holding ws rag) kept h = kept ws ∙ h

  -- A worker goes on with the same workspace, and the lock of a workspace with it.
  pub change_kept :
      (c c' : Cache R) (u v : Worker R) (xs ys : List (Worker R))
      → IsShared (system c (xs ++ u ∷ ys))
      → workspace_of v ≡ workspace_of u
      → ((ws : Str) → active_of ws c' ≡ active_of ws c)
      → ((ws : Str)
          → one_if (creates v ws) + one_if (is_locked ws c)
            ≡ one_if (creates u ws) + one_if (is_locked ws c'))
      → All (IsHeld c') (xs ++ v ∷ ys)
      → IsShared (system c' (xs ++ v ∷ ys))
  change_kept c c' u v xs ys s same active locks held = record {
    counted = λ ws.
        active ws
        ∙ s.counted ws
        ∙ leases-split ws u xs ys
        ∙ ap (λ x. one_if (str_eq x ws) + leases ws (xs ++ ys)) (sym same)
        ∙ sym (leases-split ws v xs ys);
    exclusive = λ ws.
        omega
          (arith, s.exclusive ws, creators-split ws u xs ys, creators-split ws v xs ys, locks ws);
    held = held;
  }

  pub All-change :
      (P : Worker R → Type 0) (u v : Worker R) (xs ys : List (Worker R))
      → All P (xs ++ u ∷ ys)
      → P v
      → All P (xs ++ v ∷ ys)
  All-change P u v xs ys all h =
      All-append P xs (v ∷ ys) (All-init P xs (u ∷ ys) all) (h, (All-rest P xs (u ∷ ys) all).1)

  -- A worker goes on with the same workspace; no count and no instance changes.
  pub step_on :
      (c c' : Cache R) (u v : Worker R) (xs ys : List (Worker R))
      → IsShared (system c (xs ++ u ∷ ys))
      → workspace_of v ≡ workspace_of u
      → ((ws : Str) → active_of ws c' ≡ active_of ws c)
      → ((ws : Str)
          → one_if (creates v ws) + one_if (is_locked ws c)
            ≡ one_if (creates u ws) + one_if (is_locked ws c'))
      → ((ws : Str) → get ws c'.instances ≡ get ws c.instances)
      → IsHeld c' v
      → IsShared (system c' (xs ++ v ∷ ys))
  step_on c c' u v xs ys s same active locks kept held =
      change_kept c c' u v xs ys s same active locks (
        All-change (IsHeld c') u v xs ys
          (All-mono (IsHeld c) (IsHeld c') (xs ++ u ∷ ys) (λ x. IsHeld-kept c c' x kept) s.held)
          held)

  pub touch_found-active :
      (now : ℕ) (ws : Str) (o : Option R) (c : Cache R) → (touch_found now ws o c).active ≡ c.active
  touch_found-active now ws none c = refl
  touch_found-active now ws (some rag) c = refl

  pub touch_found-instances :
      (now : ℕ) (ws : Str) (o : Option R) (c : Cache R)
      → (touch_found now ws o c).instances ≡ c.instances
  touch_found-instances now ws none c = refl
  touch_found-instances now ws (some rag) c = refl

  pub touch_found-locks :
      (now : ℕ) (ws : Str) (o : Option R) (c : Cache R) → (touch_found now ws o c).locks ≡ c.locks
  touch_found-locks now ws none c = refl
  touch_found-locks now ws (some rag) c = refl

  pub with_active-locks : (n : ℕ) (ws : Str) (c : Cache R) → (with_active n ws c).locks ≡ c.locks
  with_active-locks zero ws c = refl
  with_active-locks (suc n) ws c = refl

  pub with_active-instances :
      (n : ℕ) (ws : Str) (c : Cache R) → (with_active n ws c).instances ≡ c.instances
  with_active-instances zero ws c = refl
  with_active-instances (suc n) ws c = refl

  pub active_of-with_active :
      (n : ℕ) (ws other : Str) (c : Cache R)
      → active_of other (with_active n ws c) ≡ (if str_eq ws other then n else active_of other c)
  active_of-with_active zero ws other c = rw (get-pop ws other c.active) (ground arith)
  active_of-with_active (suc n) ws other c = rw (get-put ws other (suc n) c.active) (ground arith)
