-- ===== src/Queue/SharedLocks.antt =====
-- The owner locks of `UpstashRedisQueueRepository`, over the Redis commands that they use.
use graphrag_agent.Base.{ℕ, ◌<◌, ◌≡◌, Bool, true, false, Option, none, some, if◌then◌else◌}
use graphrag_agent.Base.Text.{Str, codes, str_eq, upper}
use graphrag_agent.Queue.Store.{is_some}
use graphrag_agent.Queue.Jobs.{Config}
use graphrag_agent.Queue.Locks.{is_job}

-- The Redis commands on keys that the lock methods use, as documented. `value` is what GET finds:
-- `none` once the key has expired.
pub record Keys : Type 1 where
  pub State : Type 0
  pub value : State → Str → Option Str
  -- SET key value NX EX seconds: the reply's text, if there is one
  pub set_nx_ex : Str → Str → ℕ → State → Option Str × State
  pub del : Str → State → State
  -- EXPIRE key seconds
  pub expire : Str → ℕ → State → State
  -- time passes, and keys that are due are gone
  pub pass : ℕ → State → State
  pub set_nx_ex_reply :
      (k v : Str) (seconds : ℕ) (s : State)
      → (set_nx_ex k v seconds s).0 ≡ (if is_some (value s k) then none else some (codes "OK"))
  pub value-set_nx_ex :
      (k v : Str) (seconds : ℕ) (s : State) (j : Str)
      → value (set_nx_ex k v seconds s).1 j
        ≡ (if str_eq k j then (if is_some (value s k) then value s j else some v) else value s j)
  pub value-del :
      (k : Str) (s : State) (j : Str) → value (del k s) j ≡ (if str_eq k j then none else value s j)
  pub value-expire :
      (k : Str) (seconds : ℕ) (s : State) (j : Str)
      → 0 < seconds
      → value (expire k seconds s) j ≡ value s j

module _ (K : Keys) where
  open K use {State, value, set_nx_ex, del, expire}

  abbrev replied : Option Str → Bool
  replied none = false
  replied (some text) = str_eq (upper text) (codes "OK")

  unfoldable pub acquire : Config → Str → Str → State → Bool × State
  unfolding upper str_eq
  acquire cfg key job s =
      let (reply, s') = set_nx_ex key job cfg.owner_lock_seconds s in (replied reply, s')

  -- `_REFRESH_OWNER_LOCK_SCRIPT`
  unfoldable pub refresh : Config → Str → Str → State → Bool × State
  refresh cfg key job s =
      if is_job (value s key) job then (true, expire key cfg.owner_lock_seconds s) else (false, s)

  -- `_RELEASE_OWNER_LOCK_SCRIPT`
  unfoldable pub release : Str → Str → State → Bool × State
  release key job s = if is_job (value s key) job then (true, del key s) else (false, s)
