-- ===== src/Indexing/Examples.antt =====
-- The index jobs' theorems at concrete jobs, documents and queues, and tests of the job's status.
use graphrag_agent.Indexing.Renewal.{leased_at}
use graphrag_agent.Base.{◌≡◌, refl, true, false, none, some, List, [], ◌∷◌, ◌++◌, ℕ, arith}
use graphrag_agent.Base.Text.{Str, codes, str_eq, elem}
use graphrag_agent.Documents.Status.{
  queued, pending, cancelled, done, failed, EngineState, Document, get_document,
}
use graphrag_agent.Queue.Store.{Message}
use graphrag_agent.Queue.Jobs.{Config, recover_expired_jobs, recover_script}
use graphrag_agent.Queue.Locks.{holder}
use graphrag_agent.Queue.Model.{redis, codec, keys, encode, decode}
use graphrag_agent.Indexing.Jobs.{
  Meta, World, index, load_job_meta, index_write_is_allowed, is_terminal, flagged, is_cancelled,
}
use graphrag_agent.Indexing.Start.{
  Targets, existing, start_indexing, start_new, new_meta, find_reusable,
}
use graphrag_agent.Indexing.Starting.{start_indexing_again}
use graphrag_agent.Indexing.Cancel.{
  cancel_job, cancel_document_jobs, is_job_of, cancel_jobs, cancel_one,
}
use graphrag_agent.Indexing.Cancelled.{cancel_job_lem}
use graphrag_agent.Indexing.Swept.{cancel_document_jobs_lem}
use graphrag_agent.Indexing.Engine.{Others, stopped, publish, parent_status}
use graphrag_agent.Indexing.Publishing.{Ends, publish-Ends, publish_leaves_graph}
use graphrag_agent.Indexing.Deletion.{Remote, answered}
use graphrag_agent.Indexing.Jobs.{Ran}
use graphrag_agent.Indexing.Worker.{
  Site, process_next_index_job, recover_first, is_delete_message, fail_exhausted, requeue_recovered,
  raised,
}
use graphrag_agent.Indexing.Handling.{
  Settles, process_next_index_job-Settles, process_next_index_job_frees,
}

abbrev waiting : EngineState
waiting = record { status = pending; job_id = none; error = none }

abbrev job : Meta
job = record {
  job_id = codes "j1";
  job_type = index;
  doc_id = codes "d1";
  source_doc_id = [];
  owner_id = codes "o1";
  status = queued;
  error = none;
  classic = waiting;
  light = waiting;
  targets_classic = true;
  targets_light = true;
  artifacts = [];
  deletion_cancelled = false;
}

abbrev paper : Document
paper = record {
  doc_id = codes "d1";
  owner_id = codes "o1";
  status = codes "uploaded";
  classic_index = none;
  light_index = none;
  pages = none;
}

abbrev world : World
world = record {
  jobs = job ∷ record job { job_id = codes "j2"; status = done } ∷ [];
  documents = paper ∷ [];
  flags = [];
  graphs = [];
  deletions = [];
  blobs = [];
}

abbrev no_jobs : World
no_jobs = record world { jobs = [] }

abbrev both : Targets
both = record { classic = true; light = true }

abbrev cfg : Config
cfg = record { lease_seconds = 330; max_recoveries = 2; owner_lock_seconds = 660 }

abbrev message : Message
message = record { job_id = codes "j1"; attempt = 0; fields = [] }

-- A document with both children cancelled for a job that is not: the job counts as done.
parent_status_cancelled : parent_status (some cancelled) (some cancelled) ≡ done
unfolding parent_status
parent_status_cancelled = refl

parent_status_failed : parent_status (some failed) (some cancelled) ≡ failed
unfolding parent_status
parent_status_failed = refl

start_indexing_again_example :
    let w' =
      (start_indexing (λ s. s) true true true (codes "j1") (codes "d1") both none no_jobs).0 in
    start_indexing (λ s. s) true true false (codes "j9") (codes "d1") both none w' ≡ (
      w',
      existing (record job {
        light = record { status = queued; job_id = some (codes "j1"); error = none };
        classic = record { status = queued; job_id = some (codes "j1"); error = none };
      }),
    )
unfolding str_eq start_indexing load_job_meta find_reusable start_new get_document new_meta
start_indexing_again_example =
    start_indexing_again (λ s. s) true true true false (codes "j1") (codes "j9") (codes "d1") both
      none no_jobs _ refl

cancel_job_lem_example :
    let w' = (cancel_job true true (codes "j1") world).0 in
    (index_write_is_allowed (codes "j1") (codes "d1") w' ≡ false)
    × (flagged (codes "j1") w'.flags ≡ true)
    × (is_cancelled (codes "j1") (record w' { flags = [] }) ≡ true)
    × (index_write_is_allowed (codes "j1") (codes "d1") (record w' { flags = [] }) ≡ false)
    × (load_job_meta (codes "j2") w'.jobs ≡ load_job_meta (codes "j2") world.jobs)
unfolding str_eq load_job_meta is_terminal
cancel_job_lem_example =
    cancel_job_lem true true (codes "j1") (codes "j2") (codes "d1") [] world job refl refl refl

cancel_document_jobs_lem_example :
    is_job_of (codes "d1") (record job { job_id = codes "j2"; status = done }) ≡ false
unfolding str_eq load_job_meta cancel_document_jobs cancel_jobs cancel_one is_job_of cancel_job
cancel_document_jobs_lem_example =
    cancel_document_jobs_lem true true (codes "d1") (codes "j2") world
      (record job { job_id = codes "j2"; status = done }) refl refl

abbrev flag_job : World → World
flag_job w = record w { flags = codes "j1" ∷ w.flags }

abbrev same : World → World
same w = w

-- Somebody cancels the job while its first artifact is saved.
abbrev late : Others
late = record {
  extracting = same;
  saving = λ _. flag_job;
  before_write = same;
  writing = same;
  after_write = same;
  before_done = same;
  after_done = same;
}

publish-Ends_example :
    Ends true late
      (codes "j1")
      (codes "d1")
      3
      world
      (publish true late (codes "j1") (codes "d1") 3 world)
publish-Ends_example = publish-Ends true late (codes "j1") (codes "d1") 3 world

publish_leaves_graph_example :
    let (w', e) = publish true late (codes "j1") (codes "d1") 3 world in
    (e ≡ stopped) × (elem (codes "d1") w'.graphs ≡ true)
unfolding str_eq elem index_write_is_allowed
publish_leaves_graph_example =
    publish_leaves_graph true late (codes "j1") (codes "d1") 3 world refl refl refl refl

abbrev taken : List (Str × Str)
taken = (codes "lock:o1", codes "j7") ∷ []

abbrev site : List (Str × Str) → Site redis codec keys
site held = record {
  world = world;
  queue = record { items = encode message ∷ []; leases = [] };
  locks = held;
}

abbrev deleted : Str → Remote
deleted id = answered true []

abbrev beats : List ℕ
beats = 160 ∷ 220 ∷ []

abbrev crash : Str → World → Ran
crash id w = (record w { jobs = [] }, true)

abbrev lock : Str → Str
lock owner = codes "lock:" ++ owner

process_next_index_job-Settles_example :
    Settles redis codec keys cfg true lock deleted crash beats
      (encode message)
      (some 550)
      (process_next_index_job redis codec keys cfg true lock deleted crash beats 100 (site []))
unfolding encode decode recover_first recover_expired_jobs recover_script is_delete_message
    leased_at
process_next_index_job-Settles_example =
    process_next_index_job-Settles redis codec keys cfg true lock deleted crash beats 100 (site [])
      [] (encode message) message (omega arith) refl refl refl

process_next_index_job_frees_example :
    let (turn, s') =
      process_next_index_job redis codec keys cfg true lock deleted crash beats 100 (site []) in
    (keys.value s'.locks (codes "lock:o1") ≡ none)
    × (turn ≡ raised)
    × (s'.world ≡ record world { jobs = [] })
    × (redis.queue s'.queue ≡ [])
unfolding encode decode str_eq load_job_meta holder recover_first recover_expired_jobs
    recover_script is_delete_message fail_exhausted requeue_recovered is_terminal
process_next_index_job_frees_example =
    process_next_index_job_frees redis codec keys cfg true lock deleted crash beats 100 (site []) []
      (encode message) message job (omega arith) refl refl refl refl refl refl refl
