-- ===== src/Documents/Saving.antt =====
-- The artifacts of indexing_service.py, stored while delete_document of document_service.py runs or
-- while nobody interferes.
use graphrag_agent.Base.{
  ◌≡◌, refl, ◌∙◌, Bool, true, false, inl, inr, Option, none, some, List, [], ◌∷◌, arith, Bool-cases,
}
use graphrag_agent.Base.Text.{Str, codes}
use graphrag_agent.Documents.Status.{get_document}
use graphrag_agent.Documents.Removal.{delete_document}
use graphrag_agent.Documents.Removed.{IsGone, remove_found-IsGone}
use graphrag_agent.Queue.Store.{is_some}
use graphrag_agent.Indexing.Jobs.{
  Meta, World, load_job_meta, update_meta, is_cancelled, is_cancelled_meta, index_write_is_allowed,
}
use graphrag_agent.Indexing.Fences.{map_meta, load-update_self, document_or_none}
use graphrag_agent.Indexing.Engine.{
  blob_key, with_artifact, save_job_artifact, save_artifacts, last_artifacts,
}

abbrev pub same : World → World
same w = w

abbrev pub deleting : Bool → Str → World → World
deleting enabled doc w = (delete_document enabled doc w).0

pub deleting-IsGone :
    (enabled : Bool) (doc : Str) (w : World)
    → is_some (get_document doc w.documents) ≡ true
    → IsGone doc (deleting enabled doc w)
unfolding delete_document
deleting-IsGone enabled doc w there = elim (document_or_none (get_document doc w.documents)) [
  | inl absent ↦ ground (arith, absent, there)
  | inr (d, found) ↦ rw (deleting, delete_document, found) (remove_found-IsGone enabled d doc w)
]

-- A second deletion finds nothing.
deleting_again :
    (enabled : Bool) (doc : Str) (w : World) → IsGone doc w → IsGone doc (deleting enabled doc w)
unfolding delete_document
deleting_again enabled doc w gone = rw (deleting, delete_document, gone.no_row) gone

pub allowed-there :
    (job doc : Str) (w : World)
    → index_write_is_allowed job doc w ≡ true
    → is_some (get_document doc w.documents) ≡ true
unfolding index_write_is_allowed
allowed-there job doc w h = ground (arith, h)

-- The stored graphs do not matter for the permission.
pub allowed_graphs :
    (job doc : Str) (graphs : List Str) (w : World)
    → index_write_is_allowed job doc w ≡ true
    → index_write_is_allowed job doc (record w { graphs = graphs }) ≡ true
unfolding index_write_is_allowed is_cancelled
allowed_graphs job doc graphs w h = h

pub live-allowed :
    (job doc : Str) (w : World)
    → is_cancelled job w ≡ false
    → is_some (get_document doc w.documents) ≡ true
    → index_write_is_allowed job doc w ≡ true
unfolding index_write_is_allowed
live-allowed job doc w live there = rw (live, there) refl

with_artifact-status :
    (key : Str) (o : Option Meta)
    → is_cancelled_meta (map_meta (with_artifact key) o) ≡ is_cancelled_meta o
with_artifact-status key none = refl
with_artifact-status key (some m) = ground arith

with_artifact-job_id : (key : Str) (m : Meta) → (with_artifact key m).job_id ≡ m.job_id
with_artifact-job_id key m = ground arith

-- Noting an artifact cancels no job.
live-noted :
    (job key : Str) (w : World)
    → is_cancelled job w ≡ false
    → is_cancelled job (record w { jobs = update_meta job (with_artifact key) w.jobs }) ≡ false
unfolding is_cancelled
live-noted job key w live =
    rw (load-update_self job (with_artifact key) w.jobs (with_artifact-job_id key))
      (rw (with_artifact-status key (load_job_meta job w.jobs)) live)

-- What saving keeps while nobody interferes.
pub record IsSaved (job : Str) (w : World) (r : World × Bool) : Type 0 where
  pub goes_on : r.1 ≡ false
  pub live : is_cancelled job r.0 ≡ false
  pub documents : r.0.documents ≡ w.documents

save_one-IsSaved :
    (job name : Str) (w : World)
    → is_cancelled job w ≡ false
    → IsSaved job w (save_job_artifact same job name w)
unfolding save_job_artifact is_cancelled
save_one-IsSaved job name w live =
    let stored = record w { blobs = blob_key job name ∷ w.blobs } in
    rw live (record {
      goes_on = refl;
      live = live-noted job (blob_key job name) stored live;
      documents = refl;
    })

pub save_artifacts-IsSaved :
    (job : Str) (names : List Str) (w : World)
    → is_cancelled job w ≡ false
    → IsSaved job w (save_artifacts (λ _. same) job names w)
unfolding save_artifacts
save_artifacts-IsSaved job [] w live = record { goes_on = refl; live = live; documents = refl }
save_artifacts-IsSaved job (name ∷ names) w live =
    let one = save_one-IsSaved job name w live in
    let rest = save_artifacts-IsSaved job names (save_job_artifact same job name w).0 one.live in
    rw one.goes_on (record {
      goes_on = rest.goes_on;
      live = rest.live;
      documents = rest.documents ∙ one.documents;
    })

-- Once the document is gone, the storing of artifacts leaves it gone.
stored-IsGone :
    (enabled : Bool) (job doc name : Str) (w : World)
    → is_cancelled job w ≡ false
    → IsGone doc (deleting enabled doc (record w { blobs = blob_key job name ∷ w.blobs }))
    → IsGone doc (save_job_artifact (deleting enabled doc) job name w).0
unfolding save_job_artifact
stored-IsGone enabled job doc name w live gone =
    let stored = deleting enabled doc (record w { blobs = blob_key job name ∷ w.blobs }) in
    elim (Bool-cases (is_cancelled job stored)) [
      | inl stop ↦ rw (live, stop) (record { no_row = gone.no_row; no_graph = gone.no_graph })
      | inr on ↦ rw (live, on) (record { no_row = gone.no_row; no_graph = gone.no_graph })
    ]

save_one-IsGone :
    (enabled : Bool) (job doc name : Str) (w : World)
    → IsGone doc w
    → IsGone doc (save_job_artifact (deleting enabled doc) job name w).0
unfolding save_job_artifact
save_one-IsGone enabled job doc name w gone =
    let blob = record w { blobs = blob_key job name ∷ w.blobs } in
    elim (Bool-cases (is_cancelled job w)) [
      | inl stop ↦ rw stop gone
      | inr live ↦ stored-IsGone enabled job doc name w live (
          deleting_again enabled doc blob
            (record { no_row = gone.no_row; no_graph = gone.no_graph }))
    ]

save_artifacts-IsGone :
    (enabled : Bool) (job doc : Str) (names : List Str) (w : World)
    → IsGone doc w
    → IsGone doc (save_artifacts (λ _. deleting enabled doc) job names w).0
unfolding save_artifacts
save_artifacts-IsGone enabled job doc [] w gone = gone
save_artifacts-IsGone enabled job doc (name ∷ names) w gone =
    let one = save_job_artifact (deleting enabled doc) job name w in
    let after = save_one-IsGone enabled job doc name w gone in
    elim (Bool-cases one.1) [
      | inl stop ↦ rw stop after
      | inr on ↦ rw on (save_artifacts-IsGone enabled job doc names one.0 after)
    ]

pub first_artifact-IsGone :
    (enabled : Bool) (job doc : Str) (w : World)
    → is_cancelled job w ≡ false
    → is_some (get_document doc w.documents) ≡ true
    → IsGone doc (save_artifacts (λ _. deleting enabled doc) job last_artifacts w).0
unfolding save_artifacts
first_artifact-IsGone enabled job doc w live there =
    let name = codes "kg_nodes.json" in
    let one = save_job_artifact (deleting enabled doc) job name w in
    let blob = record w { blobs = blob_key job name ∷ w.blobs } in
    let after : IsGone doc one.0 =
      stored-IsGone enabled job doc name w live (deleting-IsGone enabled doc blob there) in
    elim (Bool-cases one.1) [
      | inl stop ↦ rw stop after
      | inr on ↦ rw on (
          save_artifacts-IsGone enabled job doc (codes "kg_edges.json" ∷ codes "stats.json" ∷ [])
            one.0 after)
    ]
