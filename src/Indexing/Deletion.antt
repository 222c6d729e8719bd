-- ===== src/Indexing/Deletion.antt =====
-- `run_delete_job` and `delete_or_schedule` of lightrag_deletion_service.py. What LightRAG answers is
-- an argument. The job that delete_or_schedule stores and queues stands here as an entry of the
-- state's deletions.
use graphrag_agent.Base.{
  Bool, true, false, ◌&&◌, Option, none, some, List, [], ◌∷◌, ◌++◌, if◌then◌else◌, keep_if,
}
use graphrag_agent.Base.Text.{Str, codes, nonempty}
use graphrag_agent.Documents.Status.{Status, queued, running, done, indexing, failed}
use graphrag_agent.Indexing.Jobs.{
  World, Ran, is_delete, load_job_meta, update_meta, with_status, with_result,
}

-- LightRAG's answer to a deletion: none, or whether it deleted and which pages it could not.
pub data Remote : Type 0 where
  unreachable : Str → Remote
  answered : Bool → List Str → Remote

-- `_require_complete_delete`: the error that is raised, if one is
unfoldable pub require_complete_delete : Remote → Option Str
require_complete_delete (unreachable error) = some error
require_complete_delete (answered true pages) = elim (keep_if nonempty pages) [
  | [] ↦ none
  | p ∷ rest ↦ some (codes "LightRAG deletion is incomplete and must be retried")
]
require_complete_delete (answered false pages) =
    some (codes "LightRAG deletion is incomplete and must be retried")

abbrev pub deleted_job : Str → Option Str → World → Ran
deleted_job id none w = (record w { jobs = update_meta id (with_result done none) w.jobs }, false)
deleted_job id (some error) w =
    (record w { jobs = update_meta id (with_result queued (some error)) w.jobs }, true)

unfoldable pub run_delete_job : Remote → Str → World → Ran
unfolding load_job_meta update_meta require_complete_delete
run_delete_job remote id w = elim (load_job_meta id w.jobs) [
  | none ↦ (w, false)
  | some m ↦
      let started = record w { jobs = update_meta id (with_status running) w.jobs } in
      let ran = deleted_job id (require_complete_delete remote) started in
      if is_delete m.job_type then ran else (w, false)
]

-- lightrag_state in {"done", "indexing", "failed"}
abbrev pub is_indexed : Status → Bool
is_indexed done = true
is_indexed indexing = true
is_indexed failed = true
is_indexed other = false

-- `delete_or_schedule`, for the status of the document's LightRAG index
unfoldable pub delete_or_schedule : Status → Str → World → World
delete_or_schedule status doc w =
    if nonempty doc && is_indexed status
    then record w { deletions = w.deletions ++ doc ∷ [] }
    else w
