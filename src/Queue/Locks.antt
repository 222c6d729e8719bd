-- ===== src/Queue/Locks.antt =====
-- The locks of queue_repository.py that let one job at a time index for an owner: the process-local
-- table of `LocalThreadQueueRepository` and the Redis keys of `UpstashRedisQueueRepository`.
use graphrag_agent.Base.{Bool, true, false, Option, none, some, List, [], ◌∷◌, ◌++◌, if◌then◌else◌}
use graphrag_agent.Base.Text.{Str, codes, str_eq}

-- `_owner_lock_key`, with the prefix and SHA-256 as arguments
unfoldable pub owner_lock_key : Str → (Str → Str) → Str → Str
owner_lock_key prefix sha256 owner = prefix ++ codes ":" ++ sha256 owner

-- `_LOCAL_OWNER_LOCKS`: key to job
abbrev pub Table : Type 0
Table = List (Str × Str)

unfoldable pub holder : Str → Table → Option Str
holder key [] = none
holder key ((k, job) ∷ table) = if str_eq k key then some job else holder key table

-- table[key] = job
unfoldable pub assign : Str → Str → Table → Table
assign key job [] = (key, job) ∷ []
assign key job ((k, j) ∷ table) =
    if str_eq k key then (key, job) ∷ table else (k, j) ∷ assign key job table

-- table.pop(key, None)
unfoldable pub remove : Str → Table → Table
remove key [] = []
remove key ((k, j) ∷ table) = if str_eq k key then remove key table else (k, j) ∷ remove key table

abbrev pub is_job : Option Str → Str → Bool
is_job none job = false
is_job (some j) job = str_eq j job

-- `acquire_index_owner_lock`; a job that has the lock gets it again
unfoldable pub acquire : Str → Str → Table → Bool × Table
acquire key job table = elim (holder key table) [
  | none ↦ (true, assign key job table)
  | some j ↦ if str_eq j job then (true, assign key job table) else (false, table)
]

unfoldable pub refresh : Str → Str → Table → Bool
refresh key job table = is_job (holder key table) job

unfoldable pub release : Str → Str → Table → Bool × Table
release key job table =
    if is_job (holder key table) job then (true, remove key table) else (false, table)
