-- ===== src/Queue/Recovery.antt =====
-- What the recovery of expired leases does to the queue and to the leases.
use graphrag_agent.Base.{
  ℕ, ◌+◌, ◌≤◌, ◌≡◌, refl, ap, ◌∙◌, true, false, Option, none, some, List, [], ◌∷◌, if◌then◌else◌,
  arith, leb, length, All,
}
use graphrag_agent.Base.Text.{Str, str_eq, str_eq_iff, elem}
use graphrag_agent.Queue.Store.{Redis, Codec, Message, is_some, Distinct}
use graphrag_agent.Queue.Jobs.{
  Config, Verdict, next_attempt, requeue, recover_one, recover_script, recover_expired_jobs,
}

-- LPUSH of one text after the other.
abbrev pub push_all : List Str → List Str → List Str
push_all [] q = q
push_all (x ∷ xs) q = push_all xs (x ∷ q)

module _ (C : Codec) (limit : ℕ) where
  -- The text that goes back to the queue for an expired one, if one does.
  pub retry : Option Message → List Str → List Str
  retry none rest = rest
  retry (some m) rest =
      if leb (m.attempt + 1) limit then C.cjson_encode (next_attempt m) ∷ rest else rest

  unfoldable pub retries : List Str → List Str
  unfolding retry
  retries [] = []
  retries (raw ∷ raws) = retry (C.cjson_decode raw) (retries raws)

module _ (R : Redis) (C : Codec) (limit : ℕ) where
  open R use {State, queue, lease}

  AllLeased : State → List Str → Type 0
  AllLeased s = All (λ x. is_some (lease s x) ≡ true)

  queue-requeue :
      (o : Option Message) (rest : List Str) (s : State)
      → push_all rest (queue (requeue R C limit o s).1) ≡ push_all (retry C limit o rest) (queue s)
  unfolding requeue retry
  queue-requeue none rest s = refl
  queue-requeue (some m) rest s = ground (arith, R.queue-lpush (C.cjson_encode (next_attempt m)) s)

  lease-requeue :
      (o : Option Message) (s : State) (y : Str) → lease (requeue R C limit o s).1 y ≡ lease s y
  unfolding requeue
  lease-requeue none s y = refl
  lease-requeue (some m) s y = ground (arith, R.lease-lpush (C.cjson_encode (next_attempt m)) y s)

  lease-recover_one :
      (raw : Str) (s : State) (y : Str)
      → lease (recover_one R C limit raw s).1 y ≡ (if str_eq raw y then none else lease s y)
  unfolding recover_one
  lease-recover_one raw s y =
      ground (arith, lease-requeue (C.cjson_decode raw) (R.zrem raw s).1 y, R.lease-zrem raw y s)

  recover_one_leased :
      (raw : Str) (s : State)
      → is_some (lease s raw) ≡ true
      → recover_one R C limit raw s ≡ requeue R C limit (C.cjson_decode raw) (R.zrem raw s).1
  unfolding recover_one
  recover_one_leased raw s h = rw (R.zrem_found raw s, h)

  still_leased :
      (raw : Str) (raws : List Str) (s : State)
      → elem raw raws ≡ false
      → AllLeased s raws
      → AllLeased (recover_one R C limit raw s).1 raws
  unfolding AllLeased elem
  still_leased raw [] s e h = tt
  still_leased raw (x ∷ raws) s e h =
      (ground (arith, lease-recover_one raw s x, h.0), still_leased raw raws s (ground arith) h.1)

  lease-recover_script :
      (raws : List Str) (s : State) (y : Str)
      → lease (recover_script R C limit raws s).1 y ≡ (if elem y raws then none else lease s y)
  unfolding recover_script elem
  lease-recover_script [] s y = refl
  lease-recover_script (raw ∷ raws) s y = ground (
    arith,
    lease-recover_script raws (recover_one R C limit raw s).1 y,
    lease-recover_one raw s y,
    str_eq_iff raw y,
    str_eq_iff y raw,
  )

  queue-recover_script :
      (raws : List Str) (s : State)
      → Distinct raws
      → AllLeased s raws
      → queue (recover_script R C limit raws s).1 ≡ push_all (retries C limit raws) (queue s)
  unfolding recover_script retries AllLeased
  queue-recover_script [] s d h = refl
  queue-recover_script (raw ∷ raws) s d h =
      queue-recover_script raws (recover_one R C limit raw s).1 d.1
        (still_leased raw raws s d.0 h.1)
      ∙ ap (λ (v : Verdict × State). push_all (retries C limit raws) (queue v.1))
          (recover_one_leased raw s h.0)
      ∙ queue-requeue (C.cjson_decode raw) (retries C limit raws) (R.zrem raw s).1
      ∙ ap (push_all (retry C limit (C.cjson_decode raw) (retries C limit raws)))
          (R.queue-zrem raw s)

  reported-recover_script :
      (raws : List Str) (s : State)
      → Distinct raws
      → AllLeased s raws
      → let r = (recover_script R C limit raws s).0 in
        length r.recovered_ids + length r.exhausted_ids ≡ length raws
  unfolding recover_script AllLeased requeue
  reported-recover_script [] s d h = omega arith
  reported-recover_script (raw ∷ raws) s d h = ground (
    arith,
    reported-recover_script raws (recover_one R C limit raw s).1 d.1
        (still_leased raw raws s d.0 h.1),
    recover_one_leased raw s h.0,
  )

  due_leased :
      (bound : ℕ) (s : State) (raws : List Str)
      → All (λ x. (t : ℕ) × (lease s x ≡ some t) × (t ≤ bound)) raws
      → AllLeased s raws
  unfolding AllLeased
  due_leased bound s [] h = tt
  due_leased bound s (x ∷ raws) h = (rw h.0.1, due_leased bound s raws h.1)

module _ (R : Redis) (C : Codec) (cfg : Config) (now : ℕ) (s : R.State) (y : Str) where
  -- One recovery treats exactly the texts that the store lists as due: their leases are
  -- gone and all others are as before; to the queue it pushes, in their order, the message of each
  -- that decodes and has a retry left, with one more attempt, and nothing else.
  pub recover_expired_jobs_lem :
      let after = recover_expired_jobs R C cfg now s in
      (R.lease after.1 y ≡ (if elem y (R.zrangebyscore now 25 s) then none else R.lease s y))
      × (R.queue after.1
          ≡ push_all (retries C cfg.max_recoveries (R.zrangebyscore now 25 s)) (R.queue s))
  unfolding recover_expired_jobs
  recover_expired_jobs_lem = (
    lease-recover_script R C cfg.max_recoveries (R.zrangebyscore now 25 s) s y,
    queue-recover_script R C cfg.max_recoveries (R.zrangebyscore now 25 s) s
        (R.zrangebyscore_distinct now 25 s)
        (due_leased R C cfg.max_recoveries now s (R.zrangebyscore now 25 s)
          (R.zrangebyscore_due now 25 s)),
  )

module _ (R : Redis) (C : Codec) (cfg : Config) (now : ℕ) (s : R.State) where
  -- The recovery's script reports as many job ids, recovered and exhausted ones together, as the
  -- store lists texts as due.
  pub reported-recover :
      let r = (recover_script R C cfg.max_recoveries (R.zrangebyscore now 25 s) s).0 in
      length r.recovered_ids + length r.exhausted_ids ≡ length (R.zrangebyscore now 25 s)
  reported-recover =
      reported-recover_script R C cfg.max_recoveries (R.zrangebyscore now 25 s) s
        (R.zrangebyscore_distinct now 25 s)
        (due_leased R C cfg.max_recoveries now s (R.zrangebyscore now 25 s)
          (R.zrangebyscore_due now 25 s))
