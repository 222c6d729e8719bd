-- ===== src/Indexing/Cancel.antt =====
-- `cancel_job`, `cancel_document_jobs` and `purge_cancelled_job_artifacts` of indexing_service.py.
-- `enabled` says whether LightRAG is; the two engines of a set are taken in a fixed order.
use graphrag_agent.Base.{
  Bool, true, false, not, ◌&&◌, none, some, List, [], ◌∷◌, ◌++◌, if◌then◌else◌, keep_if,
}
use graphrag_agent.Base.Text.{Str, codes, str_eq, nonempty, elem}
use graphrag_agent.Documents.Status.{
  Engine, legacy, lightrag, Status, done, failed, cancelled, disabled, get_document,
  normalized_index, update_engine_index_status, EngineState, pending,
}
use graphrag_agent.Indexing.Deletion.{delete_or_schedule}
use graphrag_agent.Indexing.Jobs.{
  Meta, World, is_terminal, is_active, is_delete, cancelled_index, load_job_meta, update_meta,
  with_status, with_engine, engine_state, is_target, is_cancelled_status,
}

pub data Outcome : Type 0 where
  not_found : Outcome
  previous : Status → Outcome

abbrev pub without_graph : Str → List Str → List Str
without_graph doc graphs = keep_if (λ g. not (str_eq doc g)) graphs

-- `_cleanup_completed_child`
unfoldable pub cleanup_completed_child : Bool → Meta → Engine → World → World
unfolding get_document normalized_index delete_or_schedule
cleanup_completed_child enabled m legacy w =
    if nonempty m.doc_id then record w { graphs = without_graph m.doc_id w.graphs } else w
cleanup_completed_child enabled m lightrag w = elim (get_document m.doc_id w.documents) [
  | none ↦ w
  | some doc ↦
      if nonempty m.doc_id
      then delete_or_schedule (normalized_index enabled lightrag doc).status m.doc_id w
      else w
]

abbrev pub is_done : Status → Bool
is_done done = true
is_done other = false

abbrev pub is_settled : Status → Bool
is_settled disabled = true
is_settled failed = true
is_settled other = false

-- The child's state and the document's index become cancelled.
abbrev pub cancel_state : Bool → Meta → Engine → World → World
cancel_state enabled m engine w = record w {
  jobs = update_meta m.job_id (with_engine engine cancelled none) w.jobs;
  documents =
      if nonempty m.doc_id
      then update_engine_index_status enabled m.doc_id engine cancelled (some m.job_id) none none
          w.documents
      else w.documents;
}

-- One round of the loop over the engines; `m` is the metadata from before the cancellation.
unfoldable pub cancel_engine : Bool → Bool → Meta → Engine → World → World
unfolding is_target cleanup_completed_child update_meta update_engine_index_status
cancel_engine enabled cleanup m engine w =
    let status = (engine_state m engine).status in
    let cleaned =
      if is_done status && cleanup then cleanup_completed_child enabled m engine w else w in
    if not (is_target m engine)
    then w
    else if is_done status && not cleanup
    then w
    else if is_settled status
    then cleaned
    else cancel_state enabled m engine cleaned

abbrev pub mark_cancelled : Meta → World → World
mark_cancelled m w = record w {
  flags = m.job_id ∷ w.flags;
  jobs = update_meta m.job_id (with_status cancelled) w.jobs;
}

unfoldable pub cancel_job : Bool → Bool → Str → World → World × Outcome
unfolding load_job_meta is_terminal cancel_engine
cancel_job enabled cleanup id w = elim (load_job_meta id w.jobs) [
  | none ↦ (w, not_found)
  | some m ↦
      let marked = mark_cancelled m w in
      let both =
        cancel_engine enabled cleanup m lightrag (cancel_engine enabled cleanup m legacy marked) in
      if is_terminal m.status then (w, previous m.status) else (both, previous m.status)
]

abbrev pub tombstone_id : Str → Str → Str
tombstone_id doc job = codes "__cancelled_index__:" ++ doc ++ codes ":" ++ job

abbrev pub detached : Str → Str → Meta → Meta
detached doc job m = record m {
  doc_id = tombstone_id doc job;
  source_doc_id = doc;
  deletion_cancelled = true;
  status = cancelled;
}

-- The tests of the loop over the jobs.
unfoldable pub is_job_of : Str → Meta → Bool
unfolding is_active
is_job_of doc m = not (is_delete m.job_type) && str_eq m.doc_id doc && is_active m.status

abbrev pub is_found : Outcome → Bool
is_found not_found = false
is_found (previous s) = true

-- One round of the loop: the new state, and whether the job is one of those that were cancelled.
unfoldable pub cancel_one : Bool → Bool → Str → Meta → World → World × Bool
cancel_one enabled detach doc m w =
    let (w', outcome) = cancel_job enabled (not detach) m.job_id w in
    let moved = record w' { jobs = update_meta m.job_id (detached doc m.job_id) w'.jobs } in
    if not (is_job_of doc m && nonempty m.job_id)
    then (w, false)
    else if not (is_found outcome)
    then (w', false)
    else if detach
    then (moved, true)
    else (w', true)

unfoldable pub cancel_jobs : Bool → Bool → Str → List Meta → World → World × List Str
cancel_jobs enabled detach doc [] w = (w, [])
cancel_jobs enabled detach doc (m ∷ jobs) w =
    let (w', hit) = cancel_one enabled detach doc m w in
    let (w'', ids) = cancel_jobs enabled detach doc jobs w' in
    (w'', if hit then m.job_id ∷ ids else ids)

-- `cancel_document_jobs`, over the jobs as they are when it starts
unfoldable pub cancel_document_jobs : Bool → Bool → Str → World → World × List Str
cancel_document_jobs enabled detach doc w = cancel_jobs enabled detach doc w.jobs w

-- An engine's state that is missing stands as a pending one of no job.
abbrev no_engine : EngineState
no_engine = record { status = pending; job_id = none; error = none }

-- What is left of a job's metadata: neither the engines nor their targets are.
abbrev pub tombstone : Str → Meta → Meta
tombstone id m = record m {
  job_type = cancelled_index;
  doc_id = if nonempty m.doc_id then m.doc_id else codes "__cancelled_index__:" ++ id;
  owner_id = [];
  error = none;
  classic = no_engine;
  light = no_engine;
  targets_classic = false;
  targets_light = false;
  artifacts = [];
  deletion_cancelled = true;
}

unfoldable pub purge_cancelled_job_artifacts : List Str → World → World
unfolding load_job_meta update_meta elem
purge_cancelled_job_artifacts [] w = w
purge_cancelled_job_artifacts (id ∷ ids) w = elim (load_job_meta id w.jobs) [
  | none ↦ purge_cancelled_job_artifacts ids w
  | some m ↦ purge_cancelled_job_artifacts ids (
      if is_cancelled_status m.status
      then record w {
        jobs = update_meta id (tombstone id) w.jobs;
        blobs = keep_if (λ b. not (elem b m.artifacts)) w.blobs;
      }
      else w)
]
