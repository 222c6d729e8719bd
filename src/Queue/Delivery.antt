-- ===== src/Queue/Delivery.antt =====
-- Claiming, acknowledging and renewing one index job.
use graphrag_agent.Base.{
  ℕ, ◌+◌, ◌≡◌, ap, ◌∙◌, true, false, Option, none, some, List, [], ◌∷◌, ◌++◌, if◌then◌else◌, arith,
}
use graphrag_agent.Base.Text.{Str, str_eq, str_eq_refl, nonempty}
use graphrag_agent.Queue.Store.{Redis, Codec, Message, is_some}
use graphrag_agent.Queue.Jobs.{
  Config, claimed, enqueue_index_job, claim_script, pop_index_job, ack_index_job,
  refresh_index_job_lease,
}

module _ (R : Redis) (C : Codec) (cfg : Config) where
  open R use {State, queue, lease, rpop}
  open C use {dumps, loads}

  pub claim_script-some :
      (t : ℕ) (s : State) (raw : Str)
      → (rpop s).0 ≡ some raw
      → claim_script R C t s ≡ (some raw, R.zadd t raw (rpop s).1)
  unfolding claim_script
  claim_script-some t s raw e = rw (e, claim_script)

  -- If the rightmost queued text is not empty and decodes, `pop_index_job` returns its message with
  -- that text as the receipt, takes just this text off the queue, leases it until the lease time
  -- from now, and leaves every other lease alone.
  pub pop_index_job_lem :
      (now : ℕ) (s : State) (older : List Str) (raw : Str) (m : Message) (y : Str)
      → queue s ≡ older ++ raw ∷ []
      → nonempty raw ≡ true
      → loads raw ≡ some m
      → ((pop_index_job R C cfg now s).0 ≡ claimed m raw)
        × (queue (pop_index_job R C cfg now s).1 ≡ older)
        × (lease (pop_index_job R C cfg now s).1 y
            ≡ (if str_eq raw y then some (now + cfg.lease_seconds) else lease s y))
  unfolding pop_index_job
  pop_index_job_lem now s older raw m y q ne dec =
      let (found, rest) = R.rpop_last older raw s q in
      let claim = claim_script-some (now + cfg.lease_seconds) s raw found in
      (
        rw (claim, ne, dec),
        rw claim (R.queue-zadd (now + cfg.lease_seconds) raw (rpop s).1 ∙ rest),
        rw claim (
            R.lease-zadd (now + cfg.lease_seconds) raw y (rpop s).1
            ∙ ap (λ (o : Option ℕ). if str_eq raw y then some (now + cfg.lease_seconds) else o)
                (R.lease-rpop y s)),
      )

  -- Jobs are claimed in the order of their enqueueing: a job that is enqueued behind a waiting one
  -- stays queued while the waiting one is claimed, and a job that is enqueued on an empty queue is
  -- itself the one that the next claim returns.
  pub pop-enqueue_order :
      (now : ℕ) (s : State) (m new : Message)
      → queue s ≡ []
      → nonempty (dumps m) ≡ true
      → let one = enqueue_index_job R C m s in
        let two = enqueue_index_job R C new one in
        ((pop_index_job R C cfg now one).0 ≡ claimed m (dumps m))
        × ((pop_index_job R C cfg now two).0 ≡ claimed m (dumps m))
        × (queue (pop_index_job R C cfg now two).1 ≡ dumps new ∷ [])
  unfolding enqueue_index_job
  pop-enqueue_order now s m new q ne =
      let one : State = R.lpush (dumps m) s in
      let eq_one : queue one ≡ dumps m ∷ [] = rw (R.queue-lpush (dumps m) s, q) in
      let eq_two : queue (R.lpush (dumps new) one) ≡ dumps new ∷ dumps m ∷ [] =
        rw (R.queue-lpush (dumps new) one, eq_one) in
      let first = pop_index_job_lem now one [] (dumps m) m [] eq_one ne (C.loads-dumps m) in
      let second =
        pop_index_job_lem now (R.lpush (dumps new) one) (dumps new ∷ []) (dumps m) m [] eq_two ne
          (C.loads-dumps m) in
      (first.0, second.0, second.1)

  -- After its acknowledgement a receipt is leased no more, all other leases and the queue are as
  -- they were, and the lease cannot be renewed: the renewal reports failure and changes nothing.
  pub refresh-ack :
      (receipt y : Str) (now : ℕ) (s : State)
      → nonempty receipt ≡ true
      → let after = ack_index_job R C (some receipt) s in
        (lease after y ≡ (if str_eq receipt y then none else lease s y))
        × (queue after ≡ queue s)
        × (refresh_index_job_lease R C cfg (some receipt) now after ≡ (false, after))
  unfolding ack_index_job refresh_index_job_lease
  refresh-ack receipt y now s ne = (
    rw ne (R.lease-zrem receipt y s),
    rw ne (R.queue-zrem receipt s),
    rw (ne, R.lease-zrem receipt receipt s, str_eq_refl receipt),
  )

  -- A renewal succeeds exactly on a leased receipt; it then moves that lease to the lease time from
  -- now, and it leaves every other lease and the queue alone.
  pub refresh_index_job_lease_lem :
      (receipt y : Str) (now : ℕ) (s : State)
      → nonempty receipt ≡ true
      → let after = refresh_index_job_lease R C cfg (some receipt) now s in
        (after.0 ≡ is_some (lease s receipt))
        × (queue after.1 ≡ queue s)
        × (lease after.1 y ≡ (
            if is_some (lease s receipt)
            then if str_eq receipt y then some (now + cfg.lease_seconds) else lease s y
            else lease s y))
  unfolding refresh_index_job_lease
  refresh_index_job_lease_lem receipt y now s ne = (
    ground arith,
    ground (arith, R.queue-zadd (now + cfg.lease_seconds) receipt s),
    ground (arith, R.lease-zadd (now + cfg.lease_seconds) receipt y s),
  )
