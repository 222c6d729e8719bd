-- ===== src/Indexing/Worker.antt =====
-- `run_queued_job`, `_owner_lock_heartbeat` and `process_next_index_job` of indexing_service.py. The
-- pipeline is an argument, and so are what LightRAG answers to a deletion and the times at which the
-- heartbeat wakes while the pipeline runs. Its errors are left out, and what others do to the lock and
-- the queue meanwhile.
use graphrag_agent.Base.{
  ℕ, Bool, true, false, not, none, some, List, [], ◌∷◌, if◌then◌else◌, keep_if,
}
use graphrag_agent.Base.Text.{Str, codes, str_eq, nonempty, or_else}
use graphrag_agent.Documents.Status.{
  Engine, legacy, lightrag, Status, queued, done, partial, failed, cancelled, Document,
  update_engine_index_status,
}
use graphrag_agent.Queue.Store.{Redis, Codec, Message}
use graphrag_agent.Queue.Jobs.{
  Config, Popped, nothing, malformed, claimed, enqueue_index_job, pop_index_job, ack_index_job,
  refresh_index_job_lease, recover_expired_jobs,
}
use graphrag_agent.Queue.SharedLocks.{Keys, acquire, refresh, release}
use graphrag_agent.Indexing.Deletion.{Remote, run_delete_job}
use graphrag_agent.Indexing.Jobs.{
  Meta, World, with_result, Ran, is_terminal, is_delete, load_job_meta, update_meta, with_status,
  with_engine, is_target,
}

abbrev pub without_flag : Str → List Str → List Str
without_flag id flags = keep_if (λ f. not (str_eq id f)) flags

-- `pipeline` is `_run_pipeline`; a flag that was set is lifted first
unfoldable pub run_queued_job : (Str → World → Ran) → Str → World → Ran
unfolding load_job_meta is_terminal
run_queued_job pipeline id w = elim (load_job_meta id w.jobs) [
  | none ↦ (w, false)
  | some m ↦
      let ran = pipeline id (record w { flags = without_flag id w.flags }) in
      if is_terminal m.status then (w, false) else ran
]

-- The statuses that a recovery does not touch.
abbrev pub is_kept : Status → Bool
is_kept done = true
is_kept partial = true
is_kept cancelled = true
is_kept other = false

unfoldable pub requeue_recovered : List Str → World → World
unfolding load_job_meta update_meta
requeue_recovered [] w = w
requeue_recovered (id ∷ ids) w = elim (load_job_meta id w.jobs) [
  | none ↦ requeue_recovered ids w
  | some m ↦ requeue_recovered ids (
      if is_kept m.status
      then w
      else record w { jobs = update_meta id (with_status queued) w.jobs })
]

-- `update_doc_status`
unfoldable pub update_doc_status : Str → Str → List Document → List Document
update_doc_status id status [] = []
update_doc_status id status (doc ∷ docs) =
    if str_eq doc.doc_id id
    then record doc { status = status } ∷ docs
    else doc ∷ update_doc_status id status docs

abbrev pub exhausted_error : Str
exhausted_error =
    codes "Index worker was interrupted repeatedly and exhausted automatic recovery attempts"

abbrev pub fail_engine : Bool → Meta → Engine → World → World
fail_engine enabled m engine w =
    if is_target m engine
    then record w {
      jobs = update_meta m.job_id (with_engine engine failed (some exhausted_error)) w.jobs;
      documents =
          update_engine_index_status enabled m.doc_id engine failed (some m.job_id)
            (some exhausted_error) none w.documents;
    }
    else w

-- One job whose attempts are used up.
unfoldable pub fail_job : Bool → Meta → World → World
unfolding update_meta update_engine_index_status update_doc_status is_target
fail_job enabled m w =
    let marked = record w {
      jobs = update_meta m.job_id (with_result failed (some exhausted_error)) w.jobs;
    } in
    let both = fail_engine enabled m lightrag (fail_engine enabled m legacy marked) in
    let closed = record both {
      documents = update_doc_status m.doc_id (codes "failed") both.documents;
    } in
    if is_delete m.job_type then marked else if nonempty m.doc_id then closed else marked

unfoldable pub fail_exhausted : Bool → List Str → World → World
unfolding load_job_meta fail_job
fail_exhausted enabled [] w = w
fail_exhausted enabled (id ∷ ids) w = elim (load_job_meta id w.jobs) [
  | none ↦ fail_exhausted enabled ids w
  | some m ↦ fail_exhausted enabled ids (if is_kept m.status then w else fail_job enabled m w)
]

pub data Turn : Type 0 where
  idle handled raised : Turn

-- payload.get("job_type") == "lightrag_delete"
unfoldable pub is_delete_message : List (Str × Str) → Bool
is_delete_message [] = false
is_delete_message ((k, v) ∷ fields) =
    if str_eq k (codes "job_type")
    then str_eq v (codes "lightrag_delete")
    else is_delete_message fields

module _ (R : Redis) (C : Codec) (K : Keys) where
  -- The application's state, the queue and the owner locks.
  pub record Site : Type 0 where
    pub world : World
    pub queue : R.State
    pub locks : K.State

  module _ (cfg : Config) (enabled : Bool) (lock_key : Str → Str) (remote : Str → Remote)
      (pipeline : Str → World → Ran) (beats : List ℕ) where
    abbrev pub acknowledge : Str → Site → Turn × Site
    acknowledge receipt s = (handled, record s { queue = ack_index_job R C (some receipt) s.queue })

    -- An exception leaves the receipt leased.
    abbrev pub finish : Str → Bool → Site → Turn × Site
    finish receipt true s = (raised, s)
    finish receipt false s = acknowledge receipt s

    -- Another worker has the owner's lock: the message goes back to the queue.
    abbrev pub put_back : Message → Site → Site
    put_back m s = record s {
      queue = enqueue_index_job R C m s.queue;
      world = record s.world { jobs = update_meta m.job_id (with_status queued) s.world.jobs };
    }

    -- The heartbeat, at its times: it renews the owner's lock, and then the receipt's lease. A lock
    -- that is lost sets the job's flag; either loss ends the heartbeat.
    unfoldable pub heartbeat : Str → Str → Str → List ℕ → Site → Site
    heartbeat key job receipt [] s = s
    heartbeat key job receipt (at ∷ times) s =
        let (held, locks) = refresh K cfg key job s.locks in
        let (leased, queue) = refresh_index_job_lease R C cfg (some receipt) at s.queue in
        let lost = record s {
          world = record s.world { flags = job ∷ s.world.flags };
          locks = locks;
        } in
        let renewed = record s { queue = queue; locks = locks } in
        let rest = heartbeat key job receipt times renewed in
        if not held then lost else if not leased then renewed else rest

    -- An index job that has not ended.
    unfoldable pub process_index_job : Meta → Message → Str → Site → Turn × Site
    process_index_job meta m receipt s =
        let key = lock_key (or_else meta.owner_id (codes "default")) in
        let (got, locks) = acquire K cfg key m.job_id s.locks in
        let (w, failed_run) = run_queued_job pipeline m.job_id s.world in
        let ran = heartbeat key m.job_id receipt beats (record s { world = w; locks = locks }) in
        if got
        then finish receipt failed_run (record ran { locks = (release K key m.job_id ran.locks).1 })
        else acknowledge receipt (put_back m (record s { locks = locks }))

    unfoldable pub process_payload : Message → Str → Site → Turn × Site
    process_payload m receipt s =
        let (w, failed_run) = run_delete_job (remote m.job_id) m.job_id s.world in
        let deleted = finish receipt failed_run (record s { world = w }) in
        let indexed : Turn × Site = elim (load_job_meta m.job_id s.world.jobs) [
          | none ↦ acknowledge receipt s
          | some meta ↦
              if is_terminal meta.status
              then acknowledge receipt s
              else process_index_job meta m receipt s
        ] in
        if is_delete_message m.fields then deleted else indexed

    abbrev pub process_popped : Popped → Site → Turn × Site
    process_popped nothing s = (idle, s)
    process_popped malformed s = (raised, s)
    process_popped (claimed m receipt) s = process_payload m receipt s

    -- The recovery in front of a claim.
    unfoldable pub recover_first : ℕ → Site → Site
    recover_first now s =
        let (r, q) = recover_expired_jobs R C cfg now s.queue in
        record s {
          world =
              fail_exhausted enabled r.exhausted_ids (requeue_recovered r.recovered_ids s.world);
          queue = q;
        }

    unfoldable pub process_next_index_job : ℕ → Site → Turn × Site
    process_next_index_job now s =
        let recovered_site = recover_first now s in
        let (popped, q) = pop_index_job R C cfg now recovered_site.queue in
        process_popped popped (record recovered_site { queue = q })
