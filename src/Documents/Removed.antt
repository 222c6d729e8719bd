-- ===== src/Documents/Removed.antt =====
-- What delete_document of document_service.py leaves.
use graphrag_agent.Base.{
  ◌≡◌, refl, ap, ◌∙◌, Bool, true, false, inl, inr, none, some, List, [], ◌∷◌, arith, Bool-cases,
}
use graphrag_agent.Base.Text.{Str, str_eq, str_eq_iff, elem}
use graphrag_agent.Documents.Status.{Engine, Status, legacy, lightrag, Document, get_document}
use graphrag_agent.Documents.Removal.{remove_jobs, without_document, remove_found, delete_document}
use graphrag_agent.Indexing.Jobs.{Meta, World, load_job_meta, index_write_is_allowed, is_terminal}
use graphrag_agent.Indexing.Deletion.{delete_or_schedule}
use graphrag_agent.Indexing.Cancel.{
  without_graph, cancel_engine, cancel_job, cancel_one, cancel_jobs, cancel_document_jobs,
  purge_cancelled_job_artifacts, mark_cancelled,
}
use graphrag_agent.Indexing.Cancelled.{Option-cases}
use graphrag_agent.Indexing.Publishing.{elem-without_graph}

get-without_document :
    (id : Str) (documents : List Document) → get_document id (without_document id documents) ≡ none
unfolding get_document
get-without_document id [] = refl
get-without_document id (d ∷ documents) = elim (Bool-cases (str_eq d.doc_id id)) [
  | inl same ↦ rw same (get-without_document id documents)
  | inr other ↦ rw (other, other) (get-without_document id documents)
]

elem_other-without_graph :
    (doc other : Str) (graphs : List Str)
    → str_eq doc other ≡ false
    → elem other (without_graph doc graphs) ≡ elem other graphs
unfolding elem
elem_other-without_graph doc other [] ne = refl
elem_other-without_graph doc other (g ∷ graphs) ne = ground (
  arith,
  elem_other-without_graph doc other graphs ne,
  ne,
  str_eq_iff doc g,
  str_eq_iff g other,
  str_eq_iff other g,
  str_eq_iff doc other,
)

-- A cancellation that leaves the cleaning to its caller removes no graph.
graphs-cancel_engine :
    (enabled : Bool) (m : Meta) (e : Engine) (w : World)
    → (cancel_engine enabled false m e w).graphs ≡ w.graphs
unfolding cancel_engine
graphs-cancel_engine enabled m e w = ground arith

graphs-cancel_job :
    (enabled : Bool) (id : Str) (w : World) → (cancel_job enabled false id w).0.graphs ≡ w.graphs
unfolding cancel_job
graphs-cancel_job enabled id w = elim (Option-cases (load_job_meta id w.jobs)) [
  | inl absent ↦ rw (cancel_job, absent) refl
  | inr (m, found) ↦ elim (Bool-cases (is_terminal m.status)) [
    | inl ended ↦ rw (cancel_job, found, ended) refl
    | inr live ↦
        let marked = mark_cancelled m w in
        rw (cancel_job, found, live)
          (graphs-cancel_engine enabled m lightrag (cancel_engine enabled false m legacy marked)
            ∙ graphs-cancel_engine enabled m legacy marked)
  ]
]

graphs-cancel_one :
    (enabled : Bool) (doc : Str) (m : Meta) (w : World)
    → (cancel_one enabled true doc m w).0.graphs ≡ w.graphs
unfolding cancel_one
graphs-cancel_one enabled doc m w = ground (arith, graphs-cancel_job enabled m.job_id w)

graphs-cancel_jobs :
    (enabled : Bool) (doc : Str) (jobs : List Meta) (w : World)
    → (cancel_jobs enabled true doc jobs w).0.graphs ≡ w.graphs
unfolding cancel_jobs
graphs-cancel_jobs enabled doc [] w = refl
graphs-cancel_jobs enabled doc (m ∷ jobs) w =
    graphs-cancel_jobs enabled doc jobs (cancel_one enabled true doc m w).0
    ∙ graphs-cancel_one enabled doc m w

graphs-purge :
    (ids : List Str) (w : World) → (purge_cancelled_job_artifacts ids w).graphs ≡ w.graphs
unfolding purge_cancelled_job_artifacts
graphs-purge [] w = refl
graphs-purge (id ∷ ids) w = elim (Option-cases (load_job_meta id w.jobs)) [
  | inl absent ↦ rw (purge_cancelled_job_artifacts, absent) (graphs-purge ids w)
  | inr (m, found) ↦ rw (purge_cancelled_job_artifacts, found) (graphs-purge ids _ ∙ ground arith)
]

graphs-schedule :
    (s : Status) (doc : Str) (w : World) → (delete_or_schedule s doc w).graphs ≡ w.graphs
unfolding delete_or_schedule
graphs-schedule s doc w = ground arith

graphs-remove_jobs :
    (doc : Str) (cancelled : List Str) (jobs : List Meta) (w : World)
    → (remove_jobs doc cancelled jobs w).graphs ≡ w.graphs
unfolding remove_jobs
graphs-remove_jobs doc cancelled [] w = refl
graphs-remove_jobs doc cancelled (m ∷ jobs) w =
    graphs-remove_jobs doc cancelled jobs _ ∙ ground arith

graphs-remove_found :
    (enabled : Bool) (d : Document) (doc : Str) (w : World)
    → (remove_found enabled d doc w).graphs ≡ without_graph doc w.graphs
unfolding remove_found cancel_document_jobs
graphs-remove_found enabled d doc w =
    let (stopped_world, ids) = cancel_document_jobs enabled true doc w in
    let purged = purge_cancelled_job_artifacts ids stopped_world in
    graphs-remove_jobs doc ids _ _
    ∙ ap (without_graph doc) (
        graphs-schedule _ _ purged
        ∙ graphs-purge ids stopped_world
        ∙ graphs-cancel_jobs enabled doc w.jobs w)

get-remove_found :
    (enabled : Bool) (d : Document) (doc : Str) (w : World)
    → get_document doc (remove_found enabled d doc w).documents ≡ none
unfolding remove_found
get-remove_found enabled d doc w = get-without_document doc _

-- The document is gone, and so is its graph.
pub record IsGone (doc : Str) (w : World) : Type 0 where
  pub no_row : get_document doc w.documents ≡ none
  pub no_graph : elem doc w.graphs ≡ false

pub remove_found-IsGone :
    (enabled : Bool) (d : Document) (doc : Str) (w : World)
    → IsGone doc (remove_found enabled d doc w)
remove_found-IsGone enabled d doc w = record {
  no_row = get-remove_found enabled d doc w;
  no_graph = ap (elem doc) (graphs-remove_found enabled d doc w) ∙ elem-without_graph doc w.graphs;
}

pub gone-write :
    (job doc : Str) (w : World)
    → get_document doc w.documents ≡ none
    → index_write_is_allowed job doc w ≡ false
unfolding index_write_is_allowed
gone-write job doc w h = ground (arith, h)

-- Deleting a document that is there removes its row and its graph, forbids every job each further
-- index write for it, and leaves the graphs of all other documents.
pub delete_document_lem :
    (enabled : Bool) (doc other job : Str) (w : World) (d : Document)
    → get_document doc w.documents ≡ some d
    → str_eq doc other ≡ false
    → let (w', ok) = delete_document enabled doc w in
      (ok ≡ true)
      × (get_document doc w'.documents ≡ none)
      × (index_write_is_allowed job doc w' ≡ false)
      × (elem doc w'.graphs ≡ false)
      × (elem other w'.graphs ≡ elem other w.graphs)
unfolding delete_document
delete_document_lem enabled doc other job w d found ne =
    let gone = remove_found-IsGone enabled d doc w in
    rw (delete_document, found)
      (
        refl,
        gone.no_row,
        gone-write job doc (remove_found enabled d doc w) gone.no_row,
        gone.no_graph,
        ap (elem other) (graphs-remove_found enabled d doc w)
            ∙ elem_other-without_graph doc other w.graphs ne,
      )
