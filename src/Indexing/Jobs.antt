-- ===== src/Indexing/Jobs.antt =====
-- The metadata of index jobs in indexing_service.py, and the state that the service works on. Texts
-- for display, progress, times and statistics are left out.
use graphrag_agent.Base.{
  Bool, true, false, not, ◌||◌, Option, none, some, List, [], ◌∷◌, if◌then◌else◌,
}
use graphrag_agent.Base.Text.{Str, str_eq}
use graphrag_agent.Documents.Status.{
  Engine, legacy, lightrag, Status, submitted, queued, pending, parsing, extracting, indexing,
  running, done, partial, failed, cancelled, EngineState, Document, get_document,
}
use graphrag_agent.Queue.Store.{is_some}

-- `_TERMINAL_JOB_STATUSES`
unfoldable pub is_terminal : Status → Bool
is_terminal done = true
is_terminal partial = true
is_terminal failed = true
is_terminal cancelled = true
is_terminal other = false

-- `_ACTIVE_JOB_STATUSES`
unfoldable pub is_active : Status → Bool
is_active submitted = true
is_active queued = true
is_active pending = true
is_active parsing = true
is_active extracting = true
is_active indexing = true
is_active running = true
is_active other = false

pub data JobType : Type 0 where
  index lightrag_delete cancelled_index : JobType

abbrev pub is_delete : JobType → Bool
is_delete lightrag_delete = true
is_delete other = false

-- A job's metadata. `target_engines` is a set of the two engines.
pub record Meta : Type 0 where
  pub job_id : Str
  pub job_type : JobType
  pub doc_id : Str
  pub source_doc_id : Str
  pub owner_id : Str
  pub status : Status
  pub error : Option Str
  pub classic : EngineState
  pub light : EngineState
  pub targets_classic : Bool
  pub targets_light : Bool
  pub artifacts : List Str
  pub deletion_cancelled : Bool

-- The application's rows, the flags of the process at work, the documents whose classic graph is
-- stored, the deletions that are scheduled in LightRAG, and the keys of the stored artifacts. All but
-- the flags is shared by every process: another one sees the same state under flags of its own.
pub record World : Type 0 where
  pub jobs : List Meta
  pub documents : List Document
  pub flags : List Str
  pub graphs : List Str
  pub deletions : List Str
  pub blobs : List Str

unfoldable pub load_job_meta : Str → List Meta → Option Meta
load_job_meta id [] = none
load_job_meta id (m ∷ jobs) = if str_eq m.job_id id then some m else load_job_meta id jobs

-- `_update_meta` and `_update_engine_meta`, for a job that is stored. For one that is not, the first
-- raises, and the second and the storing of an artifact save a row with nothing but their own entry:
-- that is left out, and the jobs stay as they are. `set` keeps the job's id.
unfoldable pub update_meta : Str → (Meta → Meta) → List Meta → List Meta
update_meta id set [] = []
update_meta id set (m ∷ jobs) =
    if str_eq m.job_id id then set m ∷ jobs else m ∷ update_meta id set jobs

abbrev pub with_status : Status → Meta → Meta
with_status status m = record m { status = status }

abbrev pub with_result : Status → Option Str → Meta → Meta
with_result status error m = record m { status = status; error = error }

-- The state, and whether an exception leaves the function.
abbrev pub Ran : Type 0
Ran = World × Bool

abbrev pub with_engine : Engine → Status → Option Str → Meta → Meta
with_engine legacy status error m = record m {
  classic = record m.classic { status = status; error = error };
}
with_engine lightrag status error m = record m {
  light = record m.light { status = status; error = error };
}

abbrev pub engine_state : Meta → Engine → EngineState
engine_state m legacy = m.classic
engine_state m lightrag = m.light

-- set(meta.get("target_engines") or {"legacy", "lightrag"})
unfoldable pub is_target : Meta → Engine → Bool
is_target m legacy = m.targets_classic || not m.targets_light
is_target m lightrag = m.targets_light || not m.targets_classic

unfoldable pub flagged : Str → List Str → Bool
flagged id [] = false
flagged id (f ∷ flags) = str_eq id f || flagged id flags

abbrev pub is_cancelled_status : Status → Bool
is_cancelled_status cancelled = true
is_cancelled_status other = false

abbrev pub is_cancelled_meta : Option Meta → Bool
is_cancelled_meta none = false
is_cancelled_meta (some m) = is_cancelled_status m.status

-- `_is_cancelled`
unfoldable pub is_cancelled : Str → World → Bool
unfolding flagged load_job_meta
is_cancelled id w = flagged id w.flags || is_cancelled_meta (load_job_meta id w.jobs)

-- `_index_write_is_allowed`
unfoldable pub index_write_is_allowed : Str → Str → World → Bool
unfolding is_cancelled get_document
index_write_is_allowed job doc w =
    if is_cancelled job w then false else is_some (get_document doc w.documents)
