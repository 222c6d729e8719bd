-- ===== src/Indexing/Handling.antt =====
-- No message is lost in process_next_index_job of indexing_service.py, and no lock is kept.
use graphrag_agent.Base.{
  ℕ, ◌+◌, ◌<◌, ◌≡◌, refl, ap, ◌∙◌, Bool, true, false, ◌⊎◌, inl, inr, Option, none, some, List, [],
  ◌∷◌, ◌++◌, if◌then◌else◌, arith, Bool-cases,
}
use graphrag_agent.Base.Text.{Str, codes, str_eq_refl, nonempty, or_else}
use graphrag_agent.Queue.Store.{Redis, Codec, Message, is_some}
use graphrag_agent.Queue.Jobs.{Config, enqueue_index_job, pop_index_job, ack_index_job}
use graphrag_agent.Queue.Delivery.{pop_index_job_lem}
use graphrag_agent.Queue.SharedLocks.{Keys, acquire, release}
use graphrag_agent.Indexing.Jobs.{Meta, World, is_terminal, load_job_meta}
use graphrag_agent.Indexing.Deletion.{Remote, run_delete_job}
use graphrag_agent.Indexing.Jobs.{Ran}
use graphrag_agent.Indexing.Worker.{
  Turn, handled, raised, is_delete_message, run_queued_job, without_flag, heartbeat, Site,
  acknowledge, finish, process_index_job, process_payload, recover_first, process_next_index_job,
}
use graphrag_agent.Indexing.Renewal.{
  leased_at, lock_busy, lock_free, lock_taken, lock_freed, heartbeat-Beaten,
}

module _ (R : Redis) (C : Codec) (K : Keys) (cfg : Config) (enabled : Bool) (lock_key : Str → Str)
    (remote : Str → Remote) (pipeline : Str → World → Ran) (beats : List ℕ) where
  -- The state that the recovery in front of the claim leaves.
  abbrev pub recovered : ℕ → Site R C K → Site R C K
  recovered now s = recover_first R C K cfg enabled lock_key remote pipeline beats now s

  -- The receipt is settled, or its lease is what it was and an exception was raised.
  abbrev pub Settles : Str → Option ℕ → Turn × Site R C K → Type 0
  Settles receipt old t =
      ((t.0 ≡ raised) × (R.lease t.1.queue receipt ≡ old))
      ⊎ ((t.0 ≡ handled) × (R.lease t.1.queue receipt ≡ none))

  queue-ack :
      (receipt : Str) (q : R.State) → R.queue (ack_index_job R C (some receipt) q) ≡ R.queue q
  unfolding ack_index_job
  queue-ack receipt q = ground (arith, R.queue-zrem receipt q)

  lease-ack :
      (receipt : Str) (q : R.State)
      → nonempty receipt ≡ true
      → R.lease (ack_index_job R C (some receipt) q) receipt ≡ none
  unfolding ack_index_job
  lease-ack receipt q ne = rw (ne, R.lease-zrem receipt receipt q, str_eq_refl receipt) refl

  finish-Settles :
      (receipt : Str) (failed_run : Bool) (s : Site R C K) (old : Option ℕ)
      → nonempty receipt ≡ true
      → R.lease s.queue receipt ≡ old
      → Settles receipt old
          (finish R C K cfg enabled lock_key remote pipeline beats receipt failed_run s)
  finish-Settles receipt true s old ne h = inl (refl, h)
  finish-Settles receipt false s old ne h = inr (refl, lease-ack receipt s.queue ne)

  process_index_job-Settles :
      (meta : Meta) (m : Message) (receipt : Str) (now : ℕ) (s : Site R C K)
      → 0 < cfg.owner_lock_seconds
      → nonempty receipt ≡ true
      → R.lease s.queue receipt ≡ some (now + cfg.lease_seconds)
      → Settles receipt
          (some (leased_at now beats + cfg.lease_seconds))
          (process_index_job R C K cfg enabled lock_key remote pipeline beats meta m receipt s)
  unfolding process_index_job
  process_index_job-Settles meta m receipt now s lasts ne h =
      let key = lock_key (or_else meta.owner_id (codes "default")) in
      let claim = acquire K cfg key m.job_id s.locks in
      let ran = run_queued_job pipeline m.job_id s.world in
      elim (Bool-cases claim.0) [
        | inl got ↦
            let beaten =
              heartbeat-Beaten R C K cfg enabled lock_key remote pipeline beats key m.job_id receipt
                beats now (record s { world = ran.0; locks = claim.1 }) lasts ne h
                (lock_taken K cfg key m.job_id s.locks got) in
            rw got (finish-Settles receipt ran.1 _ _ ne beaten.leased)
        | inr busy ↦ rw busy (inr (refl, lease-ack receipt (enqueue_index_job R C m s.queue) ne))
      ]

  -- The time at which the lease of the message was set last: a deletion has no heartbeat.
  abbrev pub kept_from : Message → ℕ → ℕ
  kept_from m now = if is_delete_message m.fields then now else leased_at now beats

  process_payload-Settles :
      (m : Message) (receipt : Str) (now : ℕ) (s : Site R C K)
      → 0 < cfg.owner_lock_seconds
      → nonempty receipt ≡ true
      → R.lease s.queue receipt ≡ some (now + cfg.lease_seconds)
      → Settles receipt
          (some (kept_from m now + cfg.lease_seconds))
          (process_payload R C K cfg enabled lock_key remote pipeline beats m receipt s)
  unfolding process_payload
  process_payload-Settles m receipt now s lasts ne h =
      let ran = run_delete_job (remote m.job_id) m.job_id s.world in
      elim (Bool-cases (is_delete_message m.fields)) [
        | inl deletes ↦ rw deletes (finish-Settles receipt ran.1 _ _ ne h)
        | inr indexes ↦ rw indexes (stored (load_job_meta m.job_id s.world.jobs))
      ]
    where
      stored :
          (found : Option Meta)
          → Settles receipt (some (leased_at now beats + cfg.lease_seconds)) (elim found [
            | none ↦ acknowledge R C K cfg enabled lock_key remote pipeline beats receipt s
            | some meta ↦
                if is_terminal meta.status
                then acknowledge R C K cfg enabled lock_key remote pipeline beats receipt s
                else process_index_job R C K cfg enabled lock_key remote pipeline beats meta m
                    receipt s
          ])
      stored none = inr (refl, lease-ack receipt s.queue ne)
      stored (some meta) = elim (Bool-cases (is_terminal meta.status)) [
        | inl ended ↦ rw ended (inr (refl, lease-ack receipt s.queue ne))
        | inr live ↦ rw live (process_index_job-Settles meta m receipt now s lasts ne h)
      ]

  -- Whatever the pipeline and LightRAG do, and whenever the heartbeat renews the lease, a worker's
  -- turn with a message ends in one of two ways: an exception is raised and the message stays
  -- leased, until the lease time from the heartbeat's last renewal, or from now where there is none
  -- or the message deletes, so that a recovery finds it; or the turn is done and the message is
  -- leased no more.
  pub process_next_index_job-Settles :
      (now : ℕ) (s : Site R C K) (older : List Str) (raw : Str) (m : Message)
      → 0 < cfg.owner_lock_seconds
      → R.queue (recovered now s).queue ≡ older ++ raw ∷ []
      → nonempty raw ≡ true
      → C.loads raw ≡ some m
      → Settles raw
          (some (kept_from m now + cfg.lease_seconds))
          (process_next_index_job R C K cfg enabled lock_key remote pipeline beats now s)
  unfolding process_next_index_job
  process_next_index_job-Settles now s older raw m lasts q ne dec =
      let first = recovered now s in
      let popped = pop_index_job_lem R C cfg now first.queue older raw m raw q ne dec in
      rw popped.0
        (process_payload-Settles m raw now _ lasts ne (popped.2 ∙ rw (str_eq_refl raw) refl))

  finish-queue :
      (receipt : Str) (failed_run : Bool) (s : Site R C K)
      → let t = finish R C K cfg enabled lock_key remote pipeline beats receipt failed_run s in
        (R.queue t.1.queue ≡ R.queue s.queue)
        × (t.1.locks ≡ s.locks)
        × (t.1.world ≡ s.world)
        × (t.0 ≡ (if failed_run then raised else handled))
  finish-queue receipt true s = (refl, refl, refl, refl)
  finish-queue receipt false s = (queue-ack receipt s.queue, refl, refl, refl)

  -- A turn with an index job that has not ended.
  turn_with :
      (now : ℕ) (s : Site R C K) (older : List Str) (raw : Str) (m : Message) (meta : Meta)
      → let first = recover_first R C K cfg enabled lock_key remote pipeline beats now s in
        R.queue first.queue ≡ older ++ raw ∷ []
        → nonempty raw ≡ true
        → C.loads raw ≡ some m
        → is_delete_message m.fields ≡ false
        → load_job_meta m.job_id first.world.jobs ≡ some meta
        → is_terminal meta.status ≡ false
        → (process_next_index_job R C K cfg enabled lock_key remote pipeline beats now s
            ≡ process_index_job R C K cfg enabled lock_key remote pipeline beats meta m raw
                (record first { queue = (pop_index_job R C cfg now first.queue).1 }))
          × (R.queue (pop_index_job R C cfg now first.queue).1 ≡ older)
  unfolding process_next_index_job process_payload
  turn_with now s older raw m meta q ne dec indexes found live =
      let first = recover_first R C K cfg enabled lock_key remote pipeline beats now s in
      let popped = pop_index_job_lem R C cfg now first.queue older raw m raw q ne dec in
      (rw (popped.0, indexes, found, live) refl, popped.1)

  -- While another job holds the owner's lock, the worker puts the message back behind the others,
  -- and does not run the job: the documents, the graphs and the flags are as they were.
  pub process_next_index_job_busy :
      (now : ℕ) (s : Site R C K) (older : List Str) (raw : Str) (m : Message) (meta : Meta)
      → R.queue (recovered now s).queue ≡ older ++ raw ∷ []
      → nonempty raw ≡ true
      → C.loads raw ≡ some m
      → is_delete_message m.fields ≡ false
      → load_job_meta m.job_id (recovered now s).world.jobs ≡ some meta
      → is_terminal meta.status ≡ false
      → is_some
          (K.value (recovered now s).locks (lock_key (or_else meta.owner_id (codes "default"))))
        ≡ true
      → let (turn, s') =
          process_next_index_job R C K cfg enabled lock_key remote pipeline beats now s in
        (turn ≡ handled)
        × (R.queue s'.queue ≡ C.dumps m ∷ older)
        × (s'.world.documents ≡ (recovered now s).world.documents)
        × (s'.world.graphs ≡ (recovered now s).world.graphs)
        × (s'.world.flags ≡ (recovered now s).world.flags)
  unfolding process_index_job enqueue_index_job
  process_next_index_job_busy now s older raw m meta q ne dec indexes found live held =
      let first = recover_first R C K cfg enabled lock_key remote pipeline beats now s in
      let t = turn_with now s older raw m meta q ne dec indexes found live in
      let key = lock_key (or_else meta.owner_id (codes "default")) in
      rw (t.0, lock_busy K cfg key m.job_id first.locks held)
        (
          refl,
          queue-ack raw _
              ∙ R.queue-lpush (C.dumps m) (pop_index_job R C cfg now first.queue).1
              ∙ ap (λ (l : List Str). C.dumps m ∷ l) t.1,
          refl,
          refl,
          refl,
        )

  run_queued_job_live :
      (id : Str) (w : World) (meta : Meta)
      → load_job_meta id w.jobs ≡ some meta
      → is_terminal meta.status ≡ false
      → run_queued_job pipeline id w ≡ pipeline id (record w { flags = without_flag id w.flags })
  unfolding run_queued_job
  run_queued_job_live id w meta found live = rw (run_queued_job, found, live) refl

  -- Where nobody holds the owner's lock, the worker lifts the job's flag and runs the pipeline,
  -- whose state is the one that is left; and the lock is free again after it, also where the
  -- pipeline raises, whenever the heartbeat renewed it. The messages that were queued stay.
  pub process_next_index_job_frees :
      (now : ℕ) (s : Site R C K) (older : List Str) (raw : Str) (m : Message) (meta : Meta)
      → 0 < cfg.owner_lock_seconds
      → R.queue (recovered now s).queue ≡ older ++ raw ∷ []
      → nonempty raw ≡ true
      → C.loads raw ≡ some m
      → is_delete_message m.fields ≡ false
      → load_job_meta m.job_id (recovered now s).world.jobs ≡ some meta
      → is_terminal meta.status ≡ false
      → is_some
          (K.value (recovered now s).locks (lock_key (or_else meta.owner_id (codes "default"))))
        ≡ false
      → let (turn, s') =
          process_next_index_job R C K cfg enabled lock_key remote pipeline beats now s in
        let w = (recovered now s).world in
        let ran = pipeline m.job_id (record w { flags = without_flag m.job_id w.flags }) in
        (K.value s'.locks (lock_key (or_else meta.owner_id (codes "default"))) ≡ none)
        × (turn ≡ (if ran.1 then raised else handled))
        × (s'.world ≡ ran.0)
        × (R.queue s'.queue ≡ older)
  unfolding process_index_job
  process_next_index_job_frees now s older raw m meta lasts q ne dec indexes found live free =
      let first = recovered now s in
      let t = turn_with now s older raw m meta q ne dec indexes found live in
      let key = lock_key (or_else meta.owner_id (codes "default")) in
      let got = lock_free K cfg key m.job_id first.locks free in
      let ran = run_queued_job pipeline m.job_id first.world in
      let w = first.world in
      let runs : ran ≡ pipeline m.job_id (record w { flags = without_flag m.job_id w.flags }) =
        run_queued_job_live m.job_id w meta found live in
      let claim = acquire K cfg key m.job_id first.locks in
      let popped = (pop_index_job R C cfg now first.queue).1 in
      let leased =
        (pop_index_job_lem R C cfg now first.queue older raw m raw q ne dec).2
        ∙ rw (str_eq_refl raw) refl in
      let started : Site R C K = record { world = ran.0; queue = popped; locks = claim.1 } in
      let beat =
        heartbeat R C K cfg enabled lock_key remote pipeline beats key m.job_id raw beats started in
      let beaten =
        heartbeat-Beaten R C K cfg enabled lock_key remote pipeline beats key m.job_id raw beats now
          started lasts ne leased got.1 in
      let f =
        finish-queue raw ran.1 (record beat { locks = (release K key m.job_id beat.locks).1 }) in
      let ended : process_next_index_job R C K cfg enabled lock_key remote pipeline beats now s
          ≡ finish R C K cfg enabled lock_key remote pipeline beats raw ran.1
              (record beat { locks = (release K key m.job_id beat.locks).1 }) =
        t.0 ∙ rw got.0 refl in
      (
        ap (λ (x : Turn × Site R C K). K.value x.1.locks key) ended
            ∙ ap (λ (l : K.State). K.value l key) f.1
            ∙ lock_freed K cfg key m.job_id beat.locks beaten.lock,
        ap (λ (x : Turn × Site R C K). x.0) ended
            ∙ f.3
            ∙ ap (λ r. if r.1 then raised else handled) runs,
        ap (λ (x : Turn × Site R C K). x.1.world) ended ∙ f.2 ∙ beaten.world ∙ ap (λ r. r.0) runs,
        ap (λ (x : Turn × Site R C K). R.queue x.1.queue) ended ∙ f.0 ∙ beaten.queue ∙ t.1,
      )
