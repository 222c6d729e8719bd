-- ===== src/Documents/Status.antt =====
-- The two indexes of a document in document_service.py. A status that the services write is a
-- constructor; the document's own status is a text, since older rows hold others. The statistics of
-- an index are left out.
use graphrag_agent.Base.{ℕ, Bool, Option, none, some, List, [], ◌∷◌, if◌then◌else◌}
use graphrag_agent.Base.Text.{Str, codes, str_eq, strip, lower, elem}

pub data Engine : Type 0 where
  legacy lightrag : Engine

-- The states of a job and of an index.
pub data Status : Type 0 where
  submitted queued pending parsing extracting indexing running done partial failed cancelled
        disabled :
      Status

pub record EngineState : Type 0 where
  pub status : Status
  pub job_id : Option Str
  pub error : Option Str

pub record Document : Type 0 where
  pub doc_id : Str
  pub owner_id : Str
  pub status : Str
  pub classic_index : Option EngineState
  pub light_index : Option EngineState
  pub pages : Option ℕ

abbrev pub indexing_statuses : List Str
indexing_statuses =
    codes "submitted"
    ∷ codes "queued"
    ∷ codes "parsing"
    ∷ codes "extracting"
    ∷ codes "indexing"
    ∷ []

-- str(status or "").strip().lower(), where an empty status is no status
unfoldable pub normalize_document_status : Str → Str
unfolding strip lower elem str_eq
normalize_document_status status =
    let value = lower (strip status) in
    if elem value indexing_statuses
    then codes "indexing"
    else if elem value (codes "done" ∷ codes "indexed" ∷ [])
    then codes "indexed"
    else if elem value (codes "cancelled" ∷ codes "uploaded" ∷ [])
    then codes "uploaded"
    else if str_eq value (codes "failed")
    then codes "failed"
    else codes "unknown"

unfoldable pub engine_status_from_document : Str → Status
unfolding normalize_document_status str_eq
engine_status_from_document status =
    let value = normalize_document_status status in
    if str_eq value (codes "indexed")
    then done
    else if str_eq value (codes "indexing")
    then indexing
    else if str_eq value (codes "failed")
    then failed
    else pending

-- `_initial_indexes`, for whether LightRAG is enabled
abbrev pub initial_index : Bool → Engine → EngineState
initial_index enabled legacy = record { status = pending; job_id = none; error = none }
initial_index enabled lightrag = record {
  status = if enabled then pending else disabled;
  job_id = none;
  error = none;
}

-- `normalized_indexes`, one engine's part
unfoldable pub normalized_index : Bool → Engine → Document → EngineState
unfolding engine_status_from_document
normalized_index enabled legacy doc = elim doc.classic_index [
  | none ↦ record (initial_index enabled legacy) { status = engine_status_from_document doc.status }
  | some state ↦ state
]
normalized_index enabled lightrag doc = elim doc.light_index [
  | none ↦ initial_index enabled lightrag
  | some state ↦ state
]

-- The document's own status that goes with one of its classic index.
unfoldable pub document_status : Status → Str
document_status done = codes "indexed"
document_status failed = codes "failed"
document_status cancelled = codes "uploaded"
document_status pending = codes "uploaded"
document_status other = codes "indexing"

abbrev pub or_old {ℓ} : {A : Type ℓ} → Option A → Option A → Option A
or_old none old = old
or_old (some new) old = some new

abbrev pub set_state : Status → Option Str → Option Str → EngineState → EngineState
set_state status job error state = record {
  status = status;
  job_id = or_old job state.job_id;
  error = error;
}

-- What update_engine_index_status makes of the document that it found.
unfoldable pub with_index :
    Bool → Engine → Status → Option Str → Option Str → Option ℕ → Document → Document
unfolding normalized_index document_status
with_index enabled legacy status job error pages doc = record doc {
  classic_index = some (set_state status job error (normalized_index enabled legacy doc));
  light_index = some (normalized_index enabled lightrag doc);
  pages = or_old pages doc.pages;
  status = document_status status;
}
with_index enabled lightrag status job error pages doc = record doc {
  classic_index = some (normalized_index enabled legacy doc);
  light_index = some (set_state status job error (normalized_index enabled lightrag doc));
  pages = or_old pages doc.pages;
}

unfoldable pub get_document : Str → List Document → Option Document
get_document id [] = none
get_document id (doc ∷ docs) = if str_eq doc.doc_id id then some doc else get_document id docs

-- `update_engine_index_status`: nothing happens where there is no such document
unfoldable pub update_engine_index_status :
    Bool
    → Str
    → Engine
    → Status
    → Option Str
    → Option Str
    → Option ℕ
    → List Document
    → List Document
unfolding with_index
update_engine_index_status enabled id engine status job error pages [] = []
update_engine_index_status enabled id engine status job error pages (doc ∷ docs) =
    let rest = update_engine_index_status enabled id engine status job error pages docs in
    if str_eq doc.doc_id id
    then with_index enabled engine status job error pages doc ∷ docs
    else doc ∷ rest
