-- ===== src/Indexing/Renewal.antt =====
-- The lease and the owner's lock under `_owner_lock_heartbeat` of indexing_service.py.
use graphrag_agent.Base.{
  ℕ, ◌+◌, ◌<◌, ◌≡◌, refl, ◌∙◌, Bool, true, false, inl, inr, none, some, List, [], ◌∷◌, arith,
  Bool-cases,
}
use graphrag_agent.Base.Text.{Str, str_eq, str_eq_refl, nonempty, upper}
use graphrag_agent.Queue.Store.{Redis, Codec, is_some}
use graphrag_agent.Queue.Jobs.{Config, refresh_index_job_lease}
use graphrag_agent.Queue.SharedLocks.{Keys, acquire, refresh, release}
use graphrag_agent.Indexing.Jobs.{World}
use graphrag_agent.Indexing.Deletion.{Remote}
use graphrag_agent.Indexing.Jobs.{Ran}
use graphrag_agent.Indexing.Worker.{heartbeat, Site}

-- The last time at which the lease was set, of a claim and the renewals behind it.
unfoldable pub leased_at : ℕ → List ℕ → ℕ
leased_at now [] = now
leased_at now (at ∷ times) = leased_at at times

module _ (K : Keys) (cfg : Config) where
  pub lock_busy :
      (key job : Str) (locks : K.State)
      → is_some (K.value locks key) ≡ true
      → (acquire K cfg key job locks).0 ≡ false
  unfolding acquire
  lock_busy key job locks h =
      ground (arith, K.set_nx_ex_reply key job cfg.owner_lock_seconds locks, h)

  pub lock_free :
      (key job : Str) (locks : K.State)
      → is_some (K.value locks key) ≡ false
      → ((acquire K cfg key job locks).0 ≡ true)
        × (K.value (acquire K cfg key job locks).1 key ≡ some job)
  unfolding acquire upper str_eq
  lock_free key job locks h = (
    ground (arith, K.set_nx_ex_reply key job cfg.owner_lock_seconds locks, h),
    ground (arith, K.value-set_nx_ex key job cfg.owner_lock_seconds locks key, str_eq_refl key, h),
  )

  pub lock_taken :
      (key job : Str) (locks : K.State)
      → (acquire K cfg key job locks).0 ≡ true
      → K.value (acquire K cfg key job locks).1 key ≡ some job
  lock_taken key job locks got = elim (Bool-cases (is_some (K.value locks key))) [
    | inl held ↦ absurd (ground (arith, got, lock_busy key job locks held))
    | inr free ↦ (lock_free key job locks free).1
  ]

  pub lock_freed :
      (key job : Str) (locks : K.State)
      → K.value locks key ≡ some job
      → K.value (release K key job locks).1 key ≡ none
  unfolding release
  lock_freed key job locks h =
      ground (arith, K.value-del key locks key, str_eq_refl key, str_eq_refl job, h)

module _ (R : Redis) (C : Codec) (K : Keys) (cfg : Config) (enabled : Bool) (lock_key : Str → Str)
    (remote : Str → Remote) (pipeline : Str → World → Ran) (beats : List ℕ) where
  -- What the heartbeat leaves while the lock is the job's and the receipt is leased.
  pub record Beaten (key job receipt : Str) (at : ℕ) (s s' : Site R C K) : Type 0 where
    pub leased : R.lease s'.queue receipt ≡ some (at + cfg.lease_seconds)
    pub queue : R.queue s'.queue ≡ R.queue s.queue
    pub lock : K.value s'.locks key ≡ some job
    pub world : s'.world ≡ s.world

  pub heartbeat-Beaten :
      (key job receipt : Str) (times : List ℕ) (now : ℕ) (s : Site R C K)
      → 0 < cfg.owner_lock_seconds
      → nonempty receipt ≡ true
      → R.lease s.queue receipt ≡ some (now + cfg.lease_seconds)
      → K.value s.locks key ≡ some job
      → Beaten key job receipt
          (leased_at now times)
          s
          (heartbeat R C K cfg enabled lock_key remote pipeline beats key job receipt times s)
  unfolding heartbeat leased_at refresh refresh_index_job_lease
  heartbeat-Beaten key job receipt [] now s lasts ne leased mine = record {
    leased = leased;
    queue = refl;
    lock = mine;
    world = refl;
  }
  heartbeat-Beaten key job receipt (at ∷ times) now s lasts ne leased mine =
      let s' : Site R C K = record s {
        queue = R.zadd (at + cfg.lease_seconds) receipt s.queue;
        locks = K.expire key cfg.owner_lock_seconds s.locks;
      } in
      let set =
        R.lease-zadd (at + cfg.lease_seconds) receipt receipt s.queue
        ∙ rw (str_eq_refl receipt) refl in
      let rest =
        heartbeat-Beaten key job receipt times at s' lasts ne set
          (K.value-expire key cfg.owner_lock_seconds s.locks key lasts ∙ mine) in
      simp (mine, str_eq_refl job, leased, ne)
        (record {
          leased = rest.leased;
          queue = rest.queue ∙ R.queue-zadd (at + cfg.lease_seconds) receipt s.queue;
          lock = rest.lock;
          world = rest.world;
        })
