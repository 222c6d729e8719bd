-- ===== src/Qa/Start.antt =====
-- How a batch of qa_service.py begins. The engine and the mode are normalized first; the id is the
-- caller's here, and a batch has no times.
use graphrag_agent.Base.{Bool, false, ◌||◌, Option, none, some, List, [], if◌then◌else◌, length}
use graphrag_agent.Base.Text.{Str, codes, str_eq, or_else}
use graphrag_agent.Qa.Batch.{Batch, submitted, Shelf, save_batch}

pub data EngineMode : Type 0 where
  invalid_engine invalid_mode : EngineMode
  engine_mode : Str → Option Str → EngineMode

abbrev pub mode_or_mix : Option Str → Str
mode_or_mix none = codes "mix"
mode_or_mix (some mode) = or_else mode (codes "mix")

abbrev pub is_mode : Str → Bool
is_mode mode =
    str_eq mode (codes "local")
    || (str_eq mode (codes "global")
        || (str_eq mode (codes "hybrid")
            || (str_eq mode (codes "mix") || str_eq mode (codes "naive"))))

-- `_normalize_engine_mode`
abbrev pub normalize_engine_mode : Str → Option Str → EngineMode
normalize_engine_mode engine mode =
    if str_eq engine (codes "legacy")
    then engine_mode engine none
    else if str_eq engine (codes "lightrag")
    then (if is_mode (mode_or_mix mode)
        then engine_mode engine (some (mode_or_mix mode))
        else invalid_mode)
    else invalid_engine

-- What a caller asks for; its document ids are sorted.
pub record BatchRequest : Type 0 where
  pub questions : List Str
  pub actor_id : Option Str
  pub tenant_id : Option Str
  pub engine : Str
  pub retrieval_mode : Option Str
  pub allowed_document_ids : Option (List Str)

abbrev tenant_or : Option Str → Str → Str
tenant_or none owner = owner
tenant_or (some tenant) owner = or_else tenant owner

abbrev pub new_batch : {A : Type 0} → Str → Str → BatchRequest → Str → Option Str → Batch A
new_batch id owner r engine mode = record {
  batch_id = id;
  owner_id = owner;
  actor_id = r.actor_id;
  tenant_id = tenant_or r.tenant_id owner;
  total = length r.questions;
  completed = 0;
  failed = 0;
  status = submitted;
  cancel_requested = false;
  questions = r.questions;
  next_index = 0;
  results = [];
  engine = engine;
  retrieval_mode = mode;
  allowed_document_ids = r.allowed_document_ids;
}

abbrev pub batch_started :
    {S A : Type 0}
    → Str
    → Str
    → BatchRequest
    → EngineMode
    → Shelf S A
    → Shelf S A × Option (Batch A)
batch_started id owner r (engine_mode engine mode) w =
    (save_batch (new_batch id owner r engine mode) w, some (new_batch id owner r engine mode))
batch_started id owner r other w = (w, none)

-- `start_batch`, up to the thread that it may start
abbrev pub start_batch :
    {S A : Type 0} → Str → Str → BatchRequest → Shelf S A → Shelf S A × Option (Batch A)
start_batch id owner r w =
    batch_started id owner r (normalize_engine_mode r.engine r.retrieval_mode) w
