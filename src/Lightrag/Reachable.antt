-- ===== src/Lightrag/Reachable.antt =====
-- Every state that the workers of adapters.py reach: leases are counted and instances stay cached.
use graphrag_agent.Base.{
  ℕ, ◌≡◌, refl, ap, ◌∙◌, true, false, some, List, [], ◌∷◌, ◌++◌, arith, All, All-mono, All-rest,
  subst,
}
use graphrag_agent.Base.Text.{Str}
use graphrag_agent.Base.Dict.{get}
use graphrag_agent.Lightrag.Instances.{
  Cache, touch_found, with_lock, settle, selected, evict_instances, is_candidate,
}
use graphrag_agent.Lightrag.Sharing.{
  Worker, entered, waiting, creating, holding, System, system, leases, IsHeld, IsShared, Step,
  Steps, enter, find, miss, find_late, lock, create, fail, leave, use_model, evict, stay, after,
  with_usage_lock, creators, one_if,
}
use graphrag_agent.Lightrag.Leases.{step_on, IsHeld-kept}
use graphrag_agent.Lightrag.Releases.{
  leave_kept, enter_kept, forget_all_kept, selected-candidates, candidate_free,
}
use graphrag_agent.Lightrag.Creation.{
  look_on, lock_taken, lock_released, creating_alone, settle_kept,
}

module _ {R : Type 0} where
  pub Step-IsShared : (s t : System R) → Step s t → IsShared s → IsShared t
  Step-IsShared s t (enter now ws c us) h = enter_kept now ws c us h
  Step-IsShared s t (find now ws rag c xs ys found) h =
      look_on now ws c (entered ws) (holding ws rag) xs ys refl (λ w. refl) found h
  Step-IsShared s t (miss now ws c xs ys found) h =
      look_on now ws c (entered ws) (waiting ws) xs ys refl (λ w. refl) tt h
  Step-IsShared s t (find_late now ws rag c xs ys free found) h =
      step_on c (touch_found now ws (some rag) c) (waiting ws) (holding ws rag) xs ys h refl
        (λ w. refl) (λ w. refl) (λ w. refl) found
  Step-IsShared s t (lock ws c xs ys free absent) h =
      step_on c (with_lock ws true c) (waiting ws) (creating ws) xs ys h refl (λ w. refl)
        (λ w. omega (arith, lock_taken ws w c free)) (λ w. refl) absent
  Step-IsShared s t (create now ws created c xs ys) h = settle_kept now ws created c xs ys h
  Step-IsShared s t (fail now ws c xs ys) h =
      leave_kept now (with_lock ws false c) (waiting ws) xs ys refl (
        step_on c (with_lock ws false c) (creating ws) (waiting ws) xs ys h refl (λ w. refl)
          (λ w. omega (arith, lock_released ws w c xs ys h)) (λ w. refl) tt)
  Step-IsShared s t (leave now u c xs ys idle) h = leave_kept now c u xs ys idle h
  Step-IsShared s t (use_model ws locked c us) h = record {
    counted = h.counted;
    exclusive = h.exclusive;
    held =
        All-mono (IsHeld c) (IsHeld (with_usage_lock ws locked c)) us
          (λ u. IsHeld-kept c (with_usage_lock ws locked c) u (λ w. refl)) h.held;
  }
  Step-IsShared s t (evict excluded now ttl limit c us) h =
      forget_all_kept (selected excluded now ttl limit c) c us
        (All-mono (λ ws. is_candidate excluded c ws ≡ true) (λ ws. leases ws us ≡ 0)
          (selected excluded now ttl limit c) (λ ws e. candidate_free excluded c us ws h e)
          (selected-candidates excluded now ttl limit c))
        h

  Steps-IsShared : (s t : System R) → Steps s t → IsShared s → IsShared t
  Steps-IsShared s t (stay u) h = h
  Steps-IsShared s t (after u v w step steps) h =
      Steps-IsShared v w steps (Step-IsShared u v step h)

  -- No instance and no worker.
  abbrev pub start : System R
  start =
      system (record { instances = []; last_used = []; active = []; locks = []; usage_locks = [] })
        []

  start-IsShared : IsShared start
  unfolding get
  start-IsShared = record { counted = λ ws. refl; exclusive = λ ws. refl; held = tt }

  -- In whatever order the workers take their steps, a worker's instance is the one that is cached
  -- for its workspace, and no eviction takes it away, whatever it excludes and however many
  -- instances it lets remain.
  pub Steps-holding :
      (s : System R)
      → Steps start s
      → (ws : Str) (rag : R) (xs ys : List (Worker R)) → s.workers ≡ xs ++ holding ws rag ∷ ys
      → (get ws s.cache.instances ≡ some rag)
        × ((excluded : List Str) (now ttl limit : ℕ)
            → get ws (evict_instances excluded now ttl limit s.cache).instances ≡ some rag)
  Steps-holding s steps ws rag xs ys at =
      let shared = Steps-IsShared start s steps start-IsShared in
      let held_in : (c : Cache R) → IsShared (system c s.workers) → get ws c.instances ≡ some rag =
        λ c h.
          (All-rest (IsHeld c) xs (holding ws rag ∷ ys) (subst (All (IsHeld c)) at h.held)).0 in
      (
        held_in s.cache shared,
        λ excluded now ttl limit. held_in (evict_instances excluded now ttl limit s.cache) (
            Step-IsShared s (system (evict_instances excluded now ttl limit s.cache) s.workers)
              (evict excluded now ttl limit s.cache s.workers) shared),
      )

  -- A worker that creates an instance is the only one that does so for its workspace, and what it
  -- creates is what is cached: no duplicate is made.
  pub Steps-creating :
      (s : System R)
      → Steps start s
      → (ws : Str) (xs ys : List (Worker R)) → s.workers ≡ xs ++ creating ws ∷ ys
      → (creators ws s.workers ≡ 1)
        × ((now : ℕ) (created : R) → (settle now ws created s.cache).1 ≡ created)
  Steps-creating s steps ws xs ys at =
      let shared = Steps-IsShared start s steps start-IsShared in
      let shared' = subst (λ us. IsShared (system s.cache us)) at shared in
      let absent = (All-rest (IsHeld s.cache) xs (creating ws ∷ ys) shared'.held).0 in
      (
        shared.exclusive ws ∙ ap one_if (creating_alone ws s.cache xs ys shared').1,
        λ now created. rw absent refl,
      )
