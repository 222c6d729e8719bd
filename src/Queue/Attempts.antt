-- ===== src/Queue/Attempts.antt =====
-- The bound on deliveries: no text in the store counts more attempts than recoveries are allowed.
use graphrag_agent.Queue.Delivery.{claim_script-some}
use graphrag_agent.Base.{
  ℕ, ◌+◌, ◌≤◌, ◌≡◌, ap, sym, ◌∙◌, true, false, Option, none, some, List, [], ◌∷◌, ◌++◌, arith, leb,
  All, ◌⊎◌, inl, inr, subst, Bool-cases, snoc-cases, All-init, All-rest, leb→le,
}
use graphrag_agent.Base.Text.{Str, str_eq, str_eq_iff}
use graphrag_agent.Queue.Store.{Redis, Codec, Message, is_some}
use graphrag_agent.Queue.Jobs.{
  Config, claimed, next_attempt, enqueue_index_job, claim_script, pop_index_job, ack_index_job,
  refresh_index_job_lease, requeue, recover_one, recover_script, recover_expired_jobs,
}

-- The attempts that a text counts; one that does not decode is never queued again.
abbrev pub attempts : Option Message → ℕ
attempts none = 0
attempts (some m) = m.attempt

-- What a client, a worker or the dispatcher asks of the queue, with the clock at the time.
pub data Op : Type 0 where
  enqueue : Message → Op
  pop : ℕ → Op
  ack : Option Str → Op
  refresh : Option Str → ℕ → Op
  recover : ℕ → Op

module _ (R : Redis) (C : Codec) (cfg : Config) where
  open R use {State, queue, lease}

  unfoldable pub step : State → Op → State
  step s (enqueue m) = enqueue_index_job R C m s
  step s (pop now) = (pop_index_job R C cfg now s).1
  step s (ack receipt) = ack_index_job R C receipt s
  step s (refresh receipt now) = (refresh_index_job_lease R C cfg receipt now s).1
  step s (recover now) = (recover_expired_jobs R C cfg now s).1

  unfoldable pub run : State → List Op → State
  unfolding step
  run s [] = s
  run s (o ∷ ops) = run (step s o) ops

  abbrev pub Fits : Str → Type 0
  Fits raw = attempts (C.loads raw) ≤ cfg.max_recoveries

  -- Every queued and every leased text counts at most the allowed recoveries.
  pub record IsBounded (s : State) : Type 0 where
    pub queued : All Fits (queue s)
    pub leased : (y : Str) → is_some (lease s y) ≡ true → Fits y

  -- What is enqueued has not failed more often than allowed.
  abbrev pub Enqueues : List Op → Type 0
  Enqueues [] = Unit {0}
  Enqueues (enqueue m ∷ ops) = (m.attempt ≤ cfg.max_recoveries) × Enqueues ops
  Enqueues (pop now ∷ ops) = Enqueues ops
  Enqueues (ack r ∷ ops) = Enqueues ops
  Enqueues (refresh r now ∷ ops) = Enqueues ops
  Enqueues (recover now ∷ ops) = Enqueues ops

  lpush-IsBounded : (raw : Str) (s : State) → Fits raw → IsBounded s → IsBounded (R.lpush raw s)
  lpush-IsBounded raw s fits v = record {
    queued = rw (R.queue-lpush raw s) (fits, v.queued);
    leased = λ y h. v.leased y (sym (ap is_some (R.lease-lpush raw y s)) ∙ h);
  }

  enqueue-IsBounded :
      (m : Message) (s : State)
      → m.attempt ≤ cfg.max_recoveries
      → IsBounded s
      → IsBounded (enqueue_index_job R C m s)
  unfolding enqueue_index_job
  enqueue-IsBounded m s le v = lpush-IsBounded (C.dumps m) s (rw (C.loads-dumps m) le) v

  zadd-IsBounded :
      (t : ℕ) (raw : Str) (s : State) → Fits raw → IsBounded s → IsBounded (R.zadd t raw s)
  zadd-IsBounded t raw s fits v = record {
    queued = rw (R.queue-zadd t raw s) v.queued;
    leased = λ y h. zadd_case t raw s y fits v h (Bool-cases (str_eq raw y));
  }
    where
      zadd_case :
          (t : ℕ) (raw : Str) (s : State) (y : Str)
          → Fits raw
          → IsBounded s
          → is_some (lease (R.zadd t raw s) y) ≡ true
          → (str_eq raw y ≡ true) ⊎ (str_eq raw y ≡ false)
          → Fits y
      zadd_case t raw s y fits v h (inl e) = subst Fits ((str_eq_iff raw y).0 e) fits
      zadd_case t raw s y fits v h (inr e) =
          v.leased y (sym (ap is_some (R.lease-zadd t raw y s ∙ rw e)) ∙ h)

  zrem-IsBounded : (raw : Str) (s : State) → IsBounded s → IsBounded (R.zrem raw s).1
  zrem-IsBounded raw s v = record {
    queued = rw (R.queue-zrem raw s) v.queued;
    leased = λ y h. ground (arith, v.leased y, h, R.lease-zrem raw y s);
  }

  rpop-IsBounded :
      (s : State) (q : List Str)
      → queue (R.rpop s).1 ≡ q
      → All Fits q
      → IsBounded s
      → IsBounded (R.rpop s).1
  rpop-IsBounded s q e fits v = record {
    queued = rw e fits;
    leased = λ y h. v.leased y (sym (ap is_some (R.lease-rpop y s)) ∙ h);
  }

  claim_none :
      (t : ℕ) (s : State) → (R.rpop s).0 ≡ none → claim_script R C t s ≡ (none, (R.rpop s).1)
  unfolding claim_script
  claim_none t s e = rw (e, claim_script)

  pop-IsBounded : (now : ℕ) (s : State) → IsBounded s → IsBounded (pop_index_job R C cfg now s).1
  unfolding pop_index_job
  pop-IsBounded now s v = elim (snoc-cases (queue s)) [
    | inl e ↦
        let (missing, q) = R.rpop_empty s e in
        rw (claim_none (now + cfg.lease_seconds) s missing) (rpop-IsBounded s [] q tt v)
    | inr (xs, raw, e) ↦
        let (found, q) = R.rpop_last xs raw s e in
        let fits : All Fits (xs ++ raw ∷ []) = subst (All Fits) e v.queued in
        rw (claim_script-some R C cfg (now + cfg.lease_seconds) s raw found) (
          zadd-IsBounded (now + cfg.lease_seconds) raw (R.rpop s).1
            (All-rest Fits xs (raw ∷ []) fits).0
            (rpop-IsBounded s xs q (All-init Fits xs (raw ∷ []) fits) v))
  ]

  ack-IsBounded : (r : Option Str) (s : State) → IsBounded s → IsBounded (ack_index_job R C r s)
  unfolding ack_index_job
  ack-IsBounded none s v = v
  ack-IsBounded (some receipt) s v = ground (arith, v, zrem-IsBounded receipt s v)

  refresh-IsBounded :
      (r : Option Str) (now : ℕ) (s : State)
      → IsBounded s
      → IsBounded (refresh_index_job_lease R C cfg r now s).1
  unfolding refresh_index_job_lease
  refresh-IsBounded none now s v = v
  refresh-IsBounded (some receipt) now s v = elim (Bool-cases (is_some (lease s receipt))) [
    | inl e ↦
        ground
          (arith, zadd-IsBounded (now + cfg.lease_seconds) receipt s (v.leased receipt e) v, v, e)
    | inr e ↦ ground (arith, v, e)
  ]

  requeue-IsBounded :
      (o : Option Message) (s : State)
      → IsBounded s
      → IsBounded (requeue R C cfg.max_recoveries o s).1
  unfolding requeue
  requeue-IsBounded none s v = v
  requeue-IsBounded (some m) s v = elim (Bool-cases (leb (m.attempt + 1) cfg.max_recoveries)) [
    | inl e ↦ rw e (
        lpush-IsBounded (C.cjson_encode (next_attempt m)) s
          (rw (C.loads-cjson_encode (next_attempt m)) (leb→le (m.attempt + 1) cfg.max_recoveries e))
          v)
    | inr e ↦ rw e v
  ]

  recover_one-IsBounded :
      (raw : Str) (s : State) → IsBounded s → IsBounded (recover_one R C cfg.max_recoveries raw s).1
  unfolding recover_one
  recover_one-IsBounded raw s v = ground (
    arith,
    zrem-IsBounded raw s v,
    requeue-IsBounded (C.cjson_decode raw) (R.zrem raw s).1 (zrem-IsBounded raw s v),
  )

  recover_script-IsBounded :
      (raws : List Str) (s : State)
      → IsBounded s
      → IsBounded (recover_script R C cfg.max_recoveries raws s).1
  unfolding recover_script
  recover_script-IsBounded [] s v = v
  recover_script-IsBounded (raw ∷ raws) s v =
      recover_script-IsBounded raws (recover_one R C cfg.max_recoveries raw s).1
        (recover_one-IsBounded raw s v)

  recover-IsBounded :
      (now : ℕ) (s : State) → IsBounded s → IsBounded (recover_expired_jobs R C cfg now s).1
  unfolding recover_expired_jobs
  recover-IsBounded now s v = recover_script-IsBounded (R.zrangebyscore now 25 s) s v

  -- Whatever is enqueued, claimed, acknowledged, renewed and recovered, in any order and at any
  -- times, no queued and no leased text comes to count more attempts than recoveries are allowed,
  -- if none does at the start and no message is enqueued with more.
  pub run-IsBounded :
      (ops : List Op) (s : State) → Enqueues ops → IsBounded s → IsBounded (run s ops)
  unfolding run
  run-IsBounded [] s h v = v
  run-IsBounded (enqueue m ∷ ops) s h v =
      run-IsBounded ops (enqueue_index_job R C m s) h.1 (enqueue-IsBounded m s h.0 v)
  run-IsBounded (pop now ∷ ops) s h v =
      run-IsBounded ops (pop_index_job R C cfg now s).1 h (pop-IsBounded now s v)
  run-IsBounded (ack r ∷ ops) s h v =
      run-IsBounded ops (ack_index_job R C r s) h (ack-IsBounded r s v)
  run-IsBounded (refresh r now ∷ ops) s h v =
      run-IsBounded ops (refresh_index_job_lease R C cfg r now s).1 h (refresh-IsBounded r now s v)
  run-IsBounded (recover now ∷ ops) s h v =
      run-IsBounded ops (recover_expired_jobs R C cfg now s).1 h (recover-IsBounded now s v)

  -- A message that a worker claims from such a store counts at most the allowed recoveries.
  pub claimed-attempt :
      (now : ℕ) (s : State) (m : Message) (raw : Str)
      → IsBounded s
      → (pop_index_job R C cfg now s).0 ≡ claimed m raw
      → m.attempt ≤ cfg.max_recoveries
  unfolding pop_index_job
  claimed-attempt now s m raw v e = elim (snoc-cases (queue s)) [
    | inl q ↦
        absurd (ground (arith, claim_none (now + cfg.lease_seconds) s (R.rpop_empty s q).0, e))
    | inr (xs, x, q) ↦
        let fits : All Fits (xs ++ x ∷ []) = subst (All Fits) q v.queued in
        let here : Fits x = (All-rest Fits xs (x ∷ []) fits).0 in
        ground (
          arith,
          claim_script-some R C cfg (now + cfg.lease_seconds) s x (R.rpop_last xs x s q).0,
          e,
          here,
        )
  ]
