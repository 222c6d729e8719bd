-- ===== src/Lightrag/Instances.antt =====
-- The instances that LocalLightRAGAdapter of adapters.py keeps for workspaces. Each block under the
-- cache guard is one function. `R` is an instance; time is counted in ticks.
use graphrag_agent.Base.{
  ℕ, zero, suc, ◌+◌, ◌-◌, Bool, false, not, ◌&&◌, Option, none, some, List, [], ◌∷◌, ◌++◌,
  if◌then◌else◌, length, leb, keep_if, any, min, max,
}
use graphrag_agent.Base.Text.{Str, str_eq}
use graphrag_agent.Base.Sort.{sort_by}
use graphrag_agent.Base.Dict.{keys, get, put, pop}

pub record Cache (R : Type 0) : Type 0 where
  pub instances : List (Str × R)
  pub last_used : List (Str × ℕ)
  pub active : List (Str × ℕ)
  pub locks : List (Str × Bool)
  pub usage_locks : List (Str × Bool)

-- `_bounded_int`, with what int() makes of the variable
abbrev pub bounded_int : Option ℕ → ℕ → ℕ → ℕ → ℕ
bounded_int none default low high = max low (min default high)
bounded_int (some value) default low high = max low (min value high)

-- `_cache_limit` and `_cache_ttl_seconds`
abbrev pub cache_limit : Option ℕ → ℕ
cache_limit value = bounded_int value 64 1 512

abbrev pub cache_ttl_seconds : Option ℕ → ℕ
cache_ttl_seconds value = bounded_int value 1800 60 86400

abbrev pub or_zero : Option ℕ → ℕ
or_zero none = 0
or_zero (some n) = n

abbrev pub or_one : Option ℕ → ℕ
or_one none = 1
or_one (some n) = n

abbrev pub or_unlocked : Option Bool → Bool
or_unlocked none = false
or_unlocked (some locked) = locked

-- The loop over the candidates: those that are not selected yet, while too many remain.
unfoldable pub pick : (Str → Bool) → ℕ → ℕ → List Str → List Str
pick stale limit remaining [] = []
pick stale limit remaining (ws ∷ rest) =
    let skipping = pick stale limit remaining rest in
    let taking = pick stale limit (remaining - 1) rest in
    if leb remaining limit then [] else if stale ws then skipping else ws ∷ taking

module _ {R : Type 0} where
  abbrev pub active_of : Str → Cache R → ℕ
  active_of ws c = or_zero (get ws c.active)

  -- The first block of `_instance`, with the instance that it finds.
  abbrev pub touch_found : ℕ → Str → Option R → Cache R → Cache R
  touch_found now ws none c = c
  touch_found now ws (some rag) c = record c { last_used = put ws now c.last_used }

  abbrev pub look_up : ℕ → Str → Cache R → Cache R × Option R
  look_up now ws c =
      let found = get ws c.instances in
      let touched = touch_found now ws found c in
      (record touched { locks = put ws (or_unlocked (get ws c.locks)) c.locks }, found)

  -- The lock of a workspace is taken and given back.
  abbrev pub with_lock : Str → Bool → Cache R → Cache R
  with_lock ws locked c = record c { locks = put ws locked c.locks }

  abbrev pub instance_or : Option R → R → R
  instance_or none created = created
  instance_or (some cached) created = cached

  -- `self._instances.setdefault(workspace, created)` and what is cached then
  abbrev pub settle : ℕ → Str → R → Cache R → Cache R × R
  settle now ws created c =
      let cached = instance_or (get ws c.instances) created in
      (
        record c { instances = put ws cached c.instances; last_used = put ws now c.last_used },
        cached,
      )

  -- `_evict_instances`
  abbrev pub used : Cache R → Str → ℕ
  used c ws = or_zero (get ws c.last_used)

  abbrev pub is_candidate : List Str → Cache R → Str → Bool
  is_candidate excluded c ws =
      not (any (str_eq ws) excluded)
      && (leb (active_of ws c) 0
          && (not (or_unlocked (get ws c.locks)) && not (or_unlocked (get ws c.usage_locks))))

  abbrev pub is_stale : ℕ → ℕ → Cache R → Str → Bool
  is_stale now ttl c ws = leb (used c ws + ttl) now

  abbrev pub candidates : List Str → Cache R → List Str
  candidates excluded c =
      sort_by (λ a b. leb (used c a) (used c b))
        (keep_if (is_candidate excluded c) (keys c.instances))

  abbrev pub selected : List Str → ℕ → ℕ → ℕ → Cache R → List Str
  selected excluded now ttl limit c =
      let found = candidates excluded c in
      let stale = keep_if (is_stale now ttl c) found in
      stale ++ pick (is_stale now ttl c) limit (length c.instances - length stale) found

  abbrev pub forget : Str → Cache R → Cache R
  forget ws c = record {
    instances = pop ws c.instances;
    last_used = pop ws c.last_used;
    active = pop ws c.active;
    locks = pop ws c.locks;
    usage_locks = pop ws c.usage_locks;
  }

  abbrev pub forget_all : List Str → Cache R → Cache R
  forget_all [] c = c
  forget_all (ws ∷ rest) c = forget_all rest (forget ws c)

  abbrev pub evict_instances : List Str → ℕ → ℕ → ℕ → Cache R → Cache R
  evict_instances excluded now ttl limit c = forget_all (selected excluded now ttl limit c) c

  -- `_instance_lease`: what is done on entry and at the end.
  abbrev pub enter_lease : ℕ → Str → Cache R → Cache R
  enter_lease now ws c = record c {
    active = put ws (active_of ws c + 1) c.active;
    last_used = put ws now c.last_used;
  }

  abbrev pub with_active : ℕ → Str → Cache R → Cache R
  with_active zero ws c = record c { active = pop ws c.active }
  with_active (suc n) ws c = record c { active = put ws (suc n) c.active }

  abbrev pub leave_lease : ℕ → Str → Cache R → Cache R
  leave_lease now ws c =
      let left = with_active (or_one (get ws c.active) - 1) ws c in
      touch_found now ws (get ws c.instances) left
