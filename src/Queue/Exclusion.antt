-- ===== src/Queue/Exclusion.antt =====
-- The owner locks exclude: while a job holds an owner's lock, no other job gets it or takes it away.
use graphrag_agent.Base.{
  ◌<◌, ◌≡◌, refl, true, false, none, some, List, [], ◌∷◌, if◌then◌else◌, arith,
}
use graphrag_agent.Base.Text.{Str, str_eq, str_eq_iff, str_eq_refl}
use graphrag_agent.Queue.Jobs.{Config}
use graphrag_agent.Queue.Locks.{Table, holder, assign, remove, acquire, refresh, release}
use graphrag_agent.Queue.SharedLocks.{Keys}
use graphrag_agent.Queue.SharedLocks

pub holder-assign :
    (key job k : Str) (t : Table)
    → holder k (assign key job t) ≡ (if str_eq key k then some job else holder k t)
unfolding holder assign
holder-assign key job k [] = refl
holder-assign key job k ((j, v) ∷ t) =
    ground (arith, holder-assign key job k t, str_eq_iff j key, str_eq_iff j k, str_eq_iff key k)

pub holder-remove :
    (key k : Str) (t : Table)
    → holder k (remove key t) ≡ (if str_eq key k then none else holder k t)
unfolding holder remove
holder-remove key k [] = ground arith
holder-remove key k ((j, v) ∷ t) =
    ground (arith, holder-remove key k t, str_eq_iff j key, str_eq_iff j k, str_eq_iff key k)

-- A call of a lock method: the key and the job that calls.
pub data Call : Type 0 where
  acquires refreshes releases : Str → Str → Call

abbrev pub caller : Call → Str
caller (acquires key job) = job
caller (refreshes key job) = job
caller (releases key job) = job

unfoldable pub local_step : Table → Call → Table
local_step t (acquires key job) = (acquire key job t).1
local_step t (refreshes key job) = t
local_step t (releases key job) = (release key job t).1

unfoldable pub local_run : Table → List Call → Table
unfolding local_step
local_run t [] = t
local_run t (c ∷ calls) = local_run (local_step t c) calls

-- None of the calls is the job's own.
abbrev pub ByOthers : Str → List Call → Type 0
ByOthers job [] = Unit {0}
ByOthers job (c ∷ calls) = (str_eq (caller c) job ≡ false) × ByOthers job calls

local_step-holder :
    (key job : Str) (t : Table) (c : Call)
    → holder key t ≡ some job
    → str_eq (caller c) job ≡ false
    → holder key (local_step t c) ≡ some job
unfolding local_step acquire release
local_step-holder key job t (acquires k j) h o =
    ground (arith, holder-assign k j key t, str_eq_iff k key, str_eq_iff job j, str_eq_iff j job)
local_step-holder key job t (refreshes k j) h o = h
local_step-holder key job t (releases k j) h o =
    ground (arith, holder-remove k key t, str_eq_iff k key, str_eq_iff job j, str_eq_iff j job)

local_run-holder :
    (key job : Str) (calls : List Call) (t : Table)
    → holder key t ≡ some job
    → ByOthers job calls
    → holder key (local_run t calls) ≡ some job
unfolding local_run
local_run-holder key job [] t h o = h
local_run-holder key job (c ∷ calls) t h o =
    local_run-holder key job calls (local_step t c) (local_step-holder key job t c h o.0) o.1

acquired-holder :
    (key job : Str) (t : Table)
    → (acquire key job t).0 ≡ true
    → holder key (acquire key job t).1 ≡ some job
unfolding acquire
acquired-holder key job t won = ground (arith, holder-assign key job key t, str_eq_refl key)

held_excludes :
    (key job other : Str) (now : Table)
    → holder key now ≡ some job
    → str_eq other job ≡ false
    → (refresh key job now ≡ true)
      × ((release key job now).0 ≡ true)
      × (holder key (release key job now).1 ≡ none)
      × (acquire key other now ≡ (false, now))
unfolding refresh release acquire
held_excludes key job other now h ne = (
  ground (arith, str_eq_refl job),
  ground (arith, str_eq_refl job),
  ground (arith, str_eq_refl job, str_eq_refl key, holder-remove key key now),
  rw (h, acquire) (ground (arith, str_eq_iff job other, str_eq_iff other job, ne)),
)

-- In the process-local table: once a job has acquired an owner's lock, and after any calls of other
-- jobs, on this lock or others, the job still holds it: its refresh succeeds, its release succeeds
-- and frees the lock, and every acquire by another job fails and changes nothing.
pub acquire_excludes :
    (key job other : Str) (t : Table) (calls : List Call)
    → (acquire key job t).0 ≡ true
    → ByOthers job calls
    → str_eq other job ≡ false
    → let now = local_run (acquire key job t).1 calls in
      (refresh key job now ≡ true)
      × ((release key job now).0 ≡ true)
      × (holder key (release key job now).1 ≡ none)
      × (acquire key other now ≡ (false, now))
acquire_excludes key job other t calls won o ne =
    held_excludes key job other (local_run (acquire key job t).1 calls)
      (local_run-holder key job calls (acquire key job t).1 (acquired-holder key job t won) o) ne

module _ (K : Keys) (cfg : Config) (timed : 0 < cfg.owner_lock_seconds) where
  open K use {State, value}

  unfoldable pub shared_step : State → Call → State
  shared_step s (acquires key job) = (SharedLocks.acquire K cfg key job s).1
  shared_step s (refreshes key job) = (SharedLocks.refresh K cfg key job s).1
  shared_step s (releases key job) = (SharedLocks.release K key job s).1

  unfoldable pub shared_run : State → List Call → State
  unfolding shared_step
  shared_run s [] = s
  shared_run s (c ∷ calls) = shared_run (shared_step s c) calls

  shared_step-value :
      (key job : Str) (s : State) (c : Call)
      → value s key ≡ some job
      → str_eq (caller c) job ≡ false
      → value (shared_step s c) key ≡ some job
  unfolding shared_step SharedLocks.acquire SharedLocks.refresh SharedLocks.release
  shared_step-value key job s (acquires k j) h o =
      ground (arith, K.value-set_nx_ex k j cfg.owner_lock_seconds s key, str_eq_iff k key)
  shared_step-value key job s (refreshes k j) h o =
      ground (arith, K.value-expire k cfg.owner_lock_seconds s key timed)
  shared_step-value key job s (releases k j) h o =
      ground (arith, K.value-del k s key, str_eq_iff k key, str_eq_iff job j, str_eq_iff j job)

  shared_run-value :
      (key job : Str) (calls : List Call) (s : State)
      → value s key ≡ some job
      → ByOthers job calls
      → value (shared_run s calls) key ≡ some job
  unfolding shared_run
  shared_run-value key job [] s h o = h
  shared_run-value key job (c ∷ calls) s h o =
      shared_run-value key job calls (shared_step s c) (shared_step-value key job s c h o.0) o.1

  shared_acquired :
      (key job : Str) (s : State)
      → (SharedLocks.acquire K cfg key job s).0 ≡ true
      → (value s key ≡ none) × (value (SharedLocks.acquire K cfg key job s).1 key ≡ some job)
  unfolding SharedLocks.acquire
  shared_acquired key job s won = ground (
    arith,
    K.set_nx_ex_reply key job cfg.owner_lock_seconds s,
    K.value-set_nx_ex key job cfg.owner_lock_seconds s key,
    str_eq_refl key,
  )

  shared_held :
      (key job other : Str) (now : State)
      → value now key ≡ some job
      → str_eq other job ≡ false
      → ((SharedLocks.refresh K cfg key job now).0 ≡ true)
        × ((SharedLocks.release K key job now).0 ≡ true)
        × (value (SharedLocks.release K key job now).1 key ≡ none)
        × ((SharedLocks.acquire K cfg key other now).0 ≡ false)
        × (SharedLocks.refresh K cfg key other now ≡ (false, now))
        × (SharedLocks.release K key other now ≡ (false, now))
  unfolding SharedLocks.acquire SharedLocks.refresh SharedLocks.release
  shared_held key job other now h ne =
      let differs : str_eq job other ≡ false =
        ground (arith, str_eq_iff job other, str_eq_iff other job, ne) in
      (
        ground (arith, str_eq_refl job, h),
        ground (arith, str_eq_refl job, h),
        ground (arith, str_eq_refl job, str_eq_refl key, K.value-del key now key, h),
        ground (arith, K.set_nx_ex_reply key other cfg.owner_lock_seconds now, h),
        ground (arith, differs, h),
        ground (arith, differs, h),
      )

  -- Over Redis: a job acquires an owner's lock only where the key has no value; and while no key
  -- expires, after any calls of other jobs the key still names the job: its refresh succeeds, its
  -- release succeeds and removes the key, and an acquire, a refresh or a release by another job
  -- fails, the last two without any change.
  pub shared_acquire_excludes :
      (key job other : Str) (s : State) (calls : List Call)
      → (SharedLocks.acquire K cfg key job s).0 ≡ true
      → ByOthers job calls
      → str_eq other job ≡ false
      → let now = shared_run (SharedLocks.acquire K cfg key job s).1 calls in
        (value s key ≡ none)
        × ((SharedLocks.refresh K cfg key job now).0 ≡ true)
        × ((SharedLocks.release K key job now).0 ≡ true)
        × (value (SharedLocks.release K key job now).1 key ≡ none)
        × ((SharedLocks.acquire K cfg key other now).0 ≡ false)
        × (SharedLocks.refresh K cfg key other now ≡ (false, now))
        × (SharedLocks.release K key other now ≡ (false, now))
  shared_acquire_excludes key job other s calls won o ne =
      let (free, mine) = shared_acquired key job s won in
      let now : State = shared_run (SharedLocks.acquire K cfg key job s).1 calls in
      let h : value now key ≡ some job =
        shared_run-value key job calls (SharedLocks.acquire K cfg key job s).1 mine o in
      let facts = shared_held key job other now h ne in
      (free, facts.0, facts.1, facts.2, facts.3, facts.4, facts.5)
