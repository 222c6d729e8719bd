-- ===== src/Lightrag/Releases.antt =====
-- The ends of leases and the evictions of adapters.py: what is given up, and what is not.
use graphrag_agent.Base.{
  ℕ, ◌+◌, ◌-◌, ◌≡◌, refl, sym, ap, ◌∙◌, subst, Bool, true, false, Option, none, some, List, [], ◌∷◌,
  ◌++◌, if◌then◌else◌, arith, All, All-append, All-init, All-rest, All-mono, All-keep_if,
  All-of-test, inl, inr, Bool-cases, keep_if,
}
use graphrag_agent.Base.Text.{Str, str_eq, str_eq_iff}
use graphrag_agent.Base.Sort.{All-sort_by}
use graphrag_agent.Base.Dict.{get, get-put, get-pop, keys}
use graphrag_agent.Lightrag.Instances.{
  Cache, active_of, or_zero, or_one, or_unlocked, enter_lease, leave_lease, with_active, forget,
  forget_all, selected, candidates, is_candidate, is_stale, pick,
}
use graphrag_agent.Lightrag.Sharing.{
  Worker, entered, waiting, creating, holding, system, workspace_of, one_if, leases, IsHeld,
  IsShared, creates, creators, is_locked, is_creating,
}
use graphrag_agent.Lightrag.Leases.{
  leases-split, creators-split, creators_le, IsHeld-kept, touch_found-active, touch_found-instances,
  touch_found-locks, with_active-locks, with_active-instances, active_of-with_active,
}

one_left : (o : Option ℕ) (n : ℕ) → or_zero o ≡ 1 + n → or_one o - 1 ≡ n
one_left none n h = ground (arith, h)
one_left (some k) n h = omega (arith, h)

pub All-pick :
    (P : Str → Type 0) (stale : Str → Bool) (limit n : ℕ) (ws : List Str)
    → All P ws
    → All P (pick stale limit n ws)
unfolding pick
All-pick P stale limit n [] h = tt
All-pick P stale limit n (w ∷ ws) h =
    ground (arith, All-pick P stale limit n ws h.1, All-pick P stale limit (n - 1) ws h.1, h)

module _ {R : Type 0} where
  -- One lease less.
  pub leave_kept :
      (now : ℕ) (c : Cache R) (u : Worker R) (xs ys : List (Worker R))
      → is_creating u ≡ false
      → IsShared (system c (xs ++ u ∷ ys))
      → IsShared (system (leave_lease now (workspace_of u) c) (xs ++ ys))
  leave_kept now c u xs ys idle s =
      let ws = workspace_of u in
      let c' = leave_lease now ws c in
      let n = or_one (get ws c.active) - 1 in
      let instances : c'.instances ≡ c.instances =
        touch_found-instances now ws (get ws c.instances) (with_active n ws c)
        ∙ with_active-instances n ws c in
      let all =
        All-mono (IsHeld c) (IsHeld c') (xs ++ u ∷ ys)
          (λ x. IsHeld-kept c c' x (λ w. ap (get w) instances)) s.held in
      record {
        counted = λ w.
            ap (λ a. or_zero (get w a))
              (touch_found-active now ws (get ws c.instances) (with_active n ws c))
            ∙ active_of-with_active n ws w c
            ∙ elim (Bool-cases (str_eq ws w)) [
              | inl e ↦ rw e (
                  one_left (get ws c.active) (leases w (xs ++ ys)) (
                    ap (λ x. active_of x c) ((str_eq_iff ws w).0 e)
                    ∙ s.counted w
                    ∙ leases-split w u xs ys
                    ∙ rw e refl))
              | inr e ↦ rw e (s.counted w ∙ leases-split w u xs ys ∙ rw e (omega arith))
            ];
        exclusive = λ w.
            let locks : c'.locks ≡ c.locks =
              touch_found-locks now ws (get ws c.instances) (with_active n ws c)
              ∙ with_active-locks n ws c in
            let split = creators-split w u xs ys in
            let none_here : creates u w ≡ false = ground (arith, idle) in
            omega (arith, split, ap one_if none_here)
            ∙ s.exclusive w
            ∙ ap (λ x. one_if (or_unlocked (get w x))) (sym locks);
        held =
            All-append (IsHeld c') xs ys (All-init (IsHeld c') xs (u ∷ ys) all)
              (All-rest (IsHeld c') xs (u ∷ ys) all).1;
      }

  pub enter_kept :
      (now : ℕ) (ws : Str) (c : Cache R) (us : List (Worker R))
      → IsShared (system c us)
      → IsShared (system (enter_lease now ws c) (entered ws ∷ us))
  enter_kept now ws c us s = record {
    counted = λ w.
        ap or_zero (get-put ws w (active_of ws c + 1) c.active) ∙ elim (Bool-cases (str_eq ws w)) [
          | inl e ↦
              rw e
                (ap (λ x. active_of x c + 1) ((str_eq_iff ws w).0 e) ∙ omega (arith, s.counted w))
          | inr e ↦ rw e (s.counted w ∙ omega arith)
        ];
    exclusive = λ w. omega (arith, s.exclusive w);
    held = (tt, s.held);
  }

  held_apart :
      (ws : Str) (c : Cache R) (u : Worker R)
      → str_eq (workspace_of u) ws ≡ false
      → IsHeld c u
      → IsHeld (forget ws c) u
  held_apart ws c (entered w) apart h = tt
  held_apart ws c (waiting w) apart h = tt
  held_apart ws c (creating w) apart h = get-pop ws w c.instances ∙ ground (arith, h)
  held_apart ws c (holding w rag) apart h =
      get-pop ws w c.instances ∙ ground (arith, apart, h, str_eq_iff w ws, str_eq_iff ws w)

  held_elsewhere :
      (ws : Str) (c : Cache R) (us : List (Worker R))
      → leases ws us ≡ 0
      → All (IsHeld c) us
      → All (IsHeld (forget ws c)) us
  held_elsewhere ws c [] free h = tt
  held_elsewhere ws c (u ∷ us) free h = (
    held_apart ws c u (ground (arith, free)) h.0,
    held_elsewhere ws c us (omega (arith, free)) h.1,
  )

  -- A workspace without a lease is forgotten.
  forget_kept :
      (ws : Str) (c : Cache R) (us : List (Worker R))
      → leases ws us ≡ 0
      → IsShared (system c us)
      → IsShared (system (forget ws c) us)
  forget_kept ws c us free s = record {
    counted = λ w. ap or_zero (get-pop ws w c.active) ∙ elim (Bool-cases (str_eq ws w)) [
      | inl e ↦ rw e (sym (subst (λ x. leases x us ≡ 0) ((str_eq_iff ws w).0 e) free))
      | inr e ↦ rw e (s.counted w)
    ];
    exclusive = λ w.
        let unlocked : one_if (is_locked w (forget ws c))
            ≡ one_if (or_unlocked (if str_eq ws w then none else get w c.locks)) =
          ap (λ x. one_if (or_unlocked x)) (get-pop ws w c.locks) in
        elim (Bool-cases (str_eq ws w)) [
          | inl e ↦
              let free' : leases w us ≡ 0 =
                subst (λ x. leases x us ≡ 0) ((str_eq_iff ws w).0 e) free in
              let none_left : creators w us ≡ 0 = omega (arith, creators_le w us, free') in
              none_left ∙ sym (unlocked ∙ rw e refl)
          | inr e ↦ s.exclusive w ∙ sym (unlocked ∙ rw e refl)
        ];
    held = held_elsewhere ws c us free s.held;
  }

  pub forget_all_kept :
      (gone : List Str) (c : Cache R) (us : List (Worker R))
      → All (λ ws. leases ws us ≡ 0) gone
      → IsShared (system c us)
      → IsShared (system (forget_all gone c) us)
  forget_all_kept [] c us free s = s
  forget_all_kept (ws ∷ gone) c us free s =
      forget_all_kept gone (forget ws c) us free.1 (forget_kept ws c us free.0 s)

  -- No workspace is selected that is excluded, leased or locked.
  pub selected-candidates :
      (excluded : List Str) (now ttl limit : ℕ) (c : Cache R)
      → All (λ ws. is_candidate excluded c ws ≡ true) (selected excluded now ttl limit c)
  selected-candidates excluded now ttl limit c =
      let P : Str → Type 0 = λ ws. is_candidate excluded c ws ≡ true in
      let found = candidates excluded c in
      let all : All P found =
        All-sort_by _ P _ (All-of-test P (is_candidate excluded c) (λ x h. h) (keys c.instances)) in
      let stale = keep_if (is_stale now ttl c) found in
      All-append P stale _ (All-keep_if P (is_stale now ttl c) found all)
        (All-pick P _ limit _ found all)

  pub candidate_free :
      (excluded : List Str) (c : Cache R) (us : List (Worker R)) (ws : Str)
      → IsShared (system c us)
      → is_candidate excluded c ws ≡ true
      → leases ws us ≡ 0
  candidate_free excluded c us ws s h = ground (arith, s.counted ws, h)
