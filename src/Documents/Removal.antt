-- ===== src/Documents/Removal.antt =====
-- `delete_document` of document_service.py. The uploaded file is left out.
use graphrag_agent.Base.{Bool, true, false, not, none, some, List, [], ◌∷◌, if◌then◌else◌, keep_if}
use graphrag_agent.Base.Text.{Str, str_eq, elem}
use graphrag_agent.Documents.Status.{Document, lightrag, get_document, normalized_index}
use graphrag_agent.Indexing.Jobs.{Meta, World}
use graphrag_agent.Indexing.Deletion.{delete_or_schedule}
use graphrag_agent.Indexing.Cancel.{cancel_document_jobs, purge_cancelled_job_artifacts}
use graphrag_agent.Indexing.Engine.{graph_removed}

-- `delete_job` of the application's repository
abbrev pub delete_job : Str → List Meta → List Meta
delete_job id jobs = keep_if (λ m. not (str_eq m.job_id id)) jobs

-- The loop over the document's jobs: those that were not cancelled go, with their artifacts.
unfoldable pub remove_jobs : Str → List Str → List Meta → World → World
unfolding elem
remove_jobs doc cancelled [] w = w
remove_jobs doc cancelled (m ∷ jobs) w = remove_jobs doc cancelled jobs (
    if elem m.job_id cancelled
    then w
    else if str_eq m.doc_id doc
    then record w {
      blobs = keep_if (λ b. not (elem b m.artifacts)) w.blobs;
      jobs = delete_job m.job_id w.jobs;
    }
    else w)

abbrev pub without_document : Str → List Document → List Document
without_document id documents = keep_if (λ d. not (str_eq d.doc_id id)) documents

-- The state without the document `d`, which was found.
unfoldable pub remove_found : Bool → Document → Str → World → World
unfolding normalized_index
remove_found enabled d doc w =
    let (cancelled_world, ids) = cancel_document_jobs enabled true doc w in
    let purged = purge_cancelled_job_artifacts ids cancelled_world in
    let scheduled =
      delete_or_schedule (normalized_index enabled lightrag d).status d.doc_id purged in
    let unlinked = graph_removed doc scheduled in
    let cleared = remove_jobs doc ids unlinked.jobs unlinked in
    record cleared { documents = without_document doc cleared.documents }

unfoldable pub delete_document : Bool → Str → World → World × Bool
unfolding get_document
delete_document enabled doc w = elim (get_document doc w.documents) [
  | none ↦ (w, false)
  | some d ↦ (remove_found enabled d doc w, true)
]
