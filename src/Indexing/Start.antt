-- ===== src/Indexing/Start.antt =====
-- `start_indexing` of indexing_service.py. SHA-256 is a parameter; the id of a new job, whether the
-- queue is durable and whether it takes the message are arguments.
use graphrag_agent.Base.{
  Bool, true, false, not, ◌&&◌, ◌||◌, Option, none, some, List, [], ◌∷◌, ◌++◌, if◌then◌else◌, take,
}
use graphrag_agent.Base.Text.{Str, codes, str_eq, nonempty, or_else}
use graphrag_agent.Documents.Status.{
  Engine, legacy, lightrag, Status, submitted, queued, pending, indexing, failed, disabled,
  EngineState, Document, get_document, normalized_index, update_engine_index_status,
}
use graphrag_agent.Indexing.Jobs.{
  Meta, World, index, is_terminal, is_delete, load_job_meta, update_meta, with_engine,
}
use graphrag_agent.Indexing.Jobs.{with_result}
use graphrag_agent.Indexing.Worker.{without_flag}

-- A set of engines.
pub record Targets : Type 0 where
  pub classic : Bool
  pub light : Bool

-- engines or {"legacy", "lightrag"}
abbrev pub or_both : Targets → Targets
or_both t = if t.classic || t.light then t else record { classic = true; light = true }

pub data Started : Type 0 where
  no_document : Started
  existing : Meta → Started
  started : Meta → Started
  enqueue_failed : Started

-- The row is replaced, or a new one added.
unfoldable pub save_job_meta : Meta → List Meta → List Meta
save_job_meta m [] = m ∷ []
save_job_meta m (x ∷ jobs) = if str_eq x.job_id m.job_id then m ∷ jobs else x ∷ save_job_meta m jobs

-- A job of this document that has not ended and works on all that is requested.
unfoldable pub is_reusable : Str → Targets → Meta → Bool
unfolding is_terminal
is_reusable doc requested m =
    not (is_delete m.job_type)
    && str_eq m.doc_id doc
    && not (is_terminal m.status)
    && (not requested.classic || m.targets_classic)
    && (not requested.light || m.targets_light)

unfoldable pub find_reusable : Str → Targets → List Meta → Option Meta
find_reusable doc requested [] = none
find_reusable doc requested (m ∷ jobs) =
    if is_reusable doc requested m then some m else find_reusable doc requested jobs

module _ (sha256 : Str → Str) (enabled durable : Bool) where
  -- The id that an idempotency key gives.
  abbrev pub stable_id : Option Str → Option Str
  stable_id none = none
  stable_id (some key) =
      if nonempty key then some (codes "job_auto_" ++ take 20 (sha256 key)) else none

  abbrev pub waiting_status : Engine → Status
  waiting_status legacy = if durable then queued else pending
  waiting_status lightrag = if enabled then if durable then queued else pending else disabled

  abbrev pub engine_meta : Str → Bool → Engine → Document → EngineState
  engine_meta job requested engine doc =
      if requested
      then record { status = waiting_status engine; job_id = some job; error = none }
      else normalized_index enabled engine doc

  unfoldable pub new_meta : Str → Targets → Document → Meta
  unfolding normalized_index
  new_meta job t doc = record {
    job_id = job;
    job_type = index;
    doc_id = doc.doc_id;
    source_doc_id = [];
    owner_id = or_else doc.owner_id (codes "default");
    status = if durable then queued else submitted;
    error = none;
    classic = engine_meta job t.classic legacy doc;
    light = engine_meta job t.light lightrag doc;
    targets_classic = t.classic;
    targets_light = t.light;
    artifacts = [];
    deletion_cancelled = false;
  }

  abbrev pub index_status : Engine → Status
  index_status legacy = if durable then indexing else pending
  index_status lightrag = if enabled then if durable then indexing else pending else disabled

  abbrev pub mark_index : Str → Str → Bool → Engine → List Document → List Document
  mark_index doc job requested engine documents =
      if requested
      then update_engine_index_status enabled doc engine (index_status engine) (some job) none none
          documents
      else documents

  -- The job and the document's indexes as they are stored.
  abbrev pub stored : Str → Targets → Document → World → World
  stored job t doc w = record w {
    jobs = save_job_meta (new_meta job t doc) w.jobs;
    documents =
        mark_index doc.doc_id job t.light lightrag
          (mark_index doc.doc_id job t.classic legacy w.documents);
  }

  abbrev pub queue_error : Str
  queue_error = codes "Index job could not be added to the durable queue"

  abbrev pub is_off : Status → Bool
  is_off disabled = true
  is_off other = false

  abbrev pub fail_child : Str → Str → Bool → Engine → World → World
  fail_child doc job requested engine w =
      if requested && not (is_off (waiting_status engine))
      then record w {
        jobs = update_meta job (with_engine engine failed (some queue_error)) w.jobs;
        documents =
            update_engine_index_status enabled doc engine failed (some job) (some queue_error) none
              w.documents;
      }
      else w

  -- The queue did not take the message: the job ends.
  abbrev pub failed_start : Str → Targets → Document → World → World
  failed_start job t doc w = fail_child doc.doc_id job t.light lightrag (
      fail_child doc.doc_id job t.classic legacy
        (record w { jobs = update_meta job (with_result failed (some queue_error)) w.jobs }))

  -- Past the checks for a job that exists.
  unfoldable pub start_new : Bool → Str → Targets → Document → World → World × Started
  start_new takes job t doc w =
      let w' = stored job t doc w in
      if durable
      then if takes
        then (w', started (new_meta job t doc))
        else (failed_start job t doc w', enqueue_failed)
      else (record w' { flags = without_flag job w'.flags }, started (new_meta job t doc))

  abbrev pub or_fresh : Option Str → Str → Str
  or_fresh none fresh = fresh
  or_fresh (some id) fresh = id

  abbrev pub start_unless : Option Meta → World → World × Started → World × Started
  start_unless none w new = new
  start_unless (some m) w new = (w, existing m)

  abbrev pub load_stable : Option Str → List Meta → Option Meta
  load_stable none jobs = none
  load_stable (some id) jobs = load_job_meta id jobs

  unfoldable pub start_indexing : Bool → Str → Str → Targets → Option Str → World → World × Started
  start_indexing takes fresh id engines key w = elim (get_document id w.documents) [
    | none ↦ (w, no_document)
    | some doc ↦
        let t = or_both engines in
        start_unless (load_stable (stable_id key) w.jobs) w (
          start_unless (find_reusable id t w.jobs) w
            (start_new takes (or_fresh (stable_id key) fresh) t doc w))
  ]
