-- ===== src/Queue/Jobs.antt =====
-- `UpstashRedisQueueRepository` of queue_repository.py: the methods on index jobs, with the Lua
-- scripts that they run. Each script is one atomic step of the store.
use graphrag_agent.Base.{
  ℕ, ◌+◌, ◌*◌, max, Bool, true, false, Option, none, some, List, [], ◌∷◌, if◌then◌else◌, leb,
  keep_if,
}
use graphrag_agent.Base.Text.{Str, nonempty}
use graphrag_agent.Queue.Store.{Redis, Codec, Message, is_some}

pub record Config : Type 0 where
  pub lease_seconds : ℕ
  pub max_recoveries : ℕ
  pub owner_lock_seconds : ℕ

-- The module's constants from the numbers in the environment; a missing lock time is twice the
-- lease.
unfoldable pub configure : ℕ → ℕ → Option ℕ → Config
configure lease recoveries lock = record {
  lease_seconds = max 60 lease;
  max_recoveries = recoveries;
  owner_lock_seconds = max (max 60 lease + 60) (elim lock [ none ↦ max 60 lease * 2 | some n ↦ n ]);
}

pub data Popped : Type 0 where
  nothing : Popped
  malformed : Popped
  claimed : Message → Str → Popped

pub data Verdict : Type 0 where
  gone : Verdict
  recovered : Str → Verdict
  exhausted : Str → Verdict

pub record Recovered : Type 0 where
  pub recovered_ids : List Str
  pub exhausted_ids : List Str

abbrev note : Verdict → Recovered → Recovered
note gone r = r
note (recovered i) r = record r { recovered_ids = i ∷ r.recovered_ids }
note (exhausted i) r = record r { exhausted_ids = i ∷ r.exhausted_ids }

-- The reading of the claim script's result.
abbrev pub popped_of : Codec → Option Str → Popped
popped_of C none = nothing
popped_of C (some raw) =
    if nonempty raw
    then elim (C.loads raw) [ none ↦ malformed | some m ↦ claimed m raw ]
    else nothing

abbrev pub next_attempt : Message → Message
next_attempt m = record m { attempt = m.attempt + 1 }

module _ (R : Redis) (C : Codec) where
  open R use {State, lease, lpush, rpop, zadd, zrem, zrangebyscore}
  open C use {dumps, cjson_encode, cjson_decode}

  unfoldable pub enqueue_index_job : Message → State → State
  enqueue_index_job m s = lpush (dumps m) s

  -- `_CLAIM_SCRIPT`
  unfoldable pub claim_script : ℕ → State → Option Str × State
  claim_script expires_at s = elim (rpop s).0 [
    | none ↦ (none, (rpop s).1)
    | some raw ↦ (some raw, zadd expires_at raw (rpop s).1)
  ]

  unfoldable pub pop_index_job : Config → ℕ → State → Popped × State
  pop_index_job cfg now s =
      let (raw, s') = claim_script (now + cfg.lease_seconds) s in (popped_of C raw, s')

  -- The receipt is the text that was claimed; a payload may have none.
  unfoldable pub ack_index_job : Option Str → State → State
  ack_index_job none s = s
  ack_index_job (some receipt) s = if nonempty receipt then (zrem receipt s).1 else s

  -- `_REFRESH_PROCESSING_LEASE_SCRIPT`, behind the test on the receipt
  unfoldable pub refresh_index_job_lease : Config → Option Str → ℕ → State → Bool × State
  refresh_index_job_lease cfg none now s = (false, s)
  refresh_index_job_lease cfg (some receipt) now s =
      if nonempty receipt
      then if is_some (lease s receipt)
        then (true, zadd (now + cfg.lease_seconds) receipt s)
        else (false, s)
      else (false, s)

  -- What `_RECOVER_SCRIPT` does with one text that it removed from the leased ones.
  unfoldable pub requeue : ℕ → Option Message → State → Verdict × State
  requeue limit none s = (exhausted [], s)
  requeue limit (some m) s =
      if leb (m.attempt + 1) limit
      then (recovered m.job_id, lpush (cjson_encode (next_attempt m)) s)
      else (exhausted m.job_id, s)

  -- One round of the loop of `_RECOVER_SCRIPT`.
  unfoldable pub recover_one : ℕ → Str → State → Verdict × State
  unfolding requeue
  recover_one limit raw s =
      let (removed, s') = zrem raw s in
      if removed then requeue limit (cjson_decode raw) s' else (gone, s')

  unfoldable pub recover_script : ℕ → List Str → State → Recovered × State
  recover_script limit [] s = (record { recovered_ids = []; exhausted_ids = [] }, s)
  recover_script limit (raw ∷ raws) s =
      let (verdict, s') = recover_one limit raw s in
      let (rest, s'') = recover_script limit raws s' in (note verdict rest, s'')

  unfoldable pub recover_expired_jobs : Config → ℕ → State → Recovered × State
  recover_expired_jobs cfg now s =
      let (r, s') = recover_script cfg.max_recoveries (zrangebyscore now 25 s) s in
      (
        record {
          recovered_ids = keep_if nonempty r.recovered_ids;
          exhausted_ids = keep_if nonempty r.exhausted_ids;
        },
        s',
      )
