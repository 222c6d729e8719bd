-- ===== src/Indexing/Engine.antt =====
-- `_run_legacy_engine` and `_save_job_artifact` of indexing_service.py, and the end of
-- `_run_pipeline`. What other threads do at each point is an argument: a function on the state. The
-- extraction itself, the embeddings and the statistics are left out.
use graphrag_agent.Base.{
  ℕ, zero, suc, Bool, true, false, not, ◌&&◌, ◌||◌, Option, none, some, List, [], ◌∷◌, ◌++◌,
  if◌then◌else◌, keep_if,
}
use graphrag_agent.Base.Text.{Str, codes, str_eq, elem}
use graphrag_agent.Documents.Status.{
  legacy, Status, indexing, done, partial, failed, cancelled, disabled, update_engine_index_status,
}
use graphrag_agent.Indexing.Jobs.{
  Meta, World, update_meta, with_engine, is_cancelled, index_write_is_allowed,
}
use graphrag_agent.Indexing.Cancel.{without_graph}

-- How the engine's run ends: with its result, or with `_IndexCancelled`.
pub data Ended : Type 0 where
  completed stopped : Ended

-- What others do while a page is extracted, while the artifact of a name is stored, before the check in
-- front of the graph's write, between that check and the write, behind the write, and right before
-- and after the result is announced.
pub record Others : Type 0 where
  pub extracting : World → World
  pub saving : Str → World → World
  pub before_write : World → World
  pub writing : World → World
  pub after_write : World → World
  pub before_done : World → World
  pub after_done : World → World

abbrev pub blob_key : Str → Str → Str
blob_key job name = codes "jobs/" ++ job ++ codes "/" ++ name

abbrev pub with_artifact : Str → Meta → Meta
with_artifact key m =
    if elem key m.artifacts then m else record m { artifacts = m.artifacts ++ key ∷ [] }

-- `_save_job_artifact`: the state, and whether it raised
unfoldable pub save_job_artifact : (World → World) → Str → Str → World → World × Bool
save_job_artifact saving job name w =
    let key = blob_key job name in
    let stored = saving (record w { blobs = key ∷ w.blobs }) in
    let undone = record stored { blobs = keep_if (λ b. not (str_eq key b)) stored.blobs } in
    let noted = record stored { jobs = update_meta job (with_artifact key) stored.jobs } in
    if is_cancelled job w
    then (w, true)
    else if is_cancelled job stored
    then (undone, true)
    else (noted, false)

-- The artifacts in their order, up to the first that raises.
unfoldable pub save_artifacts : (Str → World → World) → Str → List Str → World → World × Bool
save_artifacts saving job [] w = (w, false)
save_artifacts saving job (name ∷ names) w =
    let (w', stop) = save_job_artifact (saving name) job name w in
    let rest = save_artifacts saving job names w' in if stop then (w', true) else rest

-- The loop over the pages.
unfoldable pub extract_pages : (World → World) → Str → ℕ → World → World × Bool
extract_pages extracting job zero w = (w, false)
extract_pages extracting job (suc pages) w =
    let rest = extract_pages extracting job pages (extracting w) in
    if is_cancelled job w then (w, true) else rest

abbrev pub graph_removed : Str → World → World
graph_removed doc w = record w { graphs = without_graph doc w.graphs }

-- The engine's state in the job and in the document.
abbrev pub announce : Bool → Str → Str → Status → Option ℕ → World → World
announce enabled job doc status pages w = record w {
  jobs = update_meta job (with_engine legacy status none) w.jobs;
  documents =
      update_engine_index_status enabled doc legacy status (some job) none pages w.documents;
}

abbrev pub last_artifacts : List Str
last_artifacts = codes "kg_nodes.json" ∷ codes "kg_edges.json" ∷ codes "stats.json" ∷ []

module _ (enabled : Bool) (others : Others) (job doc : Str) (pages : ℕ) where
  -- From the last artifact to the end.
  unfoldable pub announce_done : World → World × Ended
  announce_done w =
      let ready = others.before_done w in
      let told = others.after_done (announce enabled job doc done (some pages) ready) in
      if not (index_write_is_allowed job doc ready)
      then (graph_removed doc ready, stopped)
      else if not (index_write_is_allowed job doc told)
      then (announce enabled job doc cancelled none (graph_removed doc told), stopped)
      else (told, completed)

  -- From the first check of the write to the end.
  unfoldable pub publish : World → World × Ended
  publish w =
      let before = others.before_write w in
      let found = others.writing before in
      let written = others.after_write (record found { graphs = doc ∷ found.graphs }) in
      let (saved, stop) = save_artifacts others.saving job last_artifacts written in
      let ended = announce_done saved in
      if not (index_write_is_allowed job doc before)
      then (before, stopped)
      else if not (index_write_is_allowed job doc written)
      then (graph_removed doc written, stopped)
      else if stop
      then (saved, stopped)
      else ended

  unfoldable pub run_legacy_engine : World → World × Ended
  run_legacy_engine w =
      let (read, halted) =
        extract_pages others.extracting job pages
          (announce enabled job doc indexing (some pages) w) in
      let (kept, stop) =
        save_job_artifact (others.saving (codes "extractions.json")) job (codes "extractions.json")
          read in
      let ended = publish kept in
      if halted then (read, stopped) else if stop then (kept, stopped) else ended

abbrev pub is_failed : Option Status → Bool
is_failed (some failed) = true
is_failed other = false

abbrev pub is_complete : Option Status → Bool
is_complete (some done) = true
is_complete other = false

abbrev pub is_disabled : Option Status → Bool
is_disabled (some disabled) = true
is_disabled other = false

-- The job's status from those of the engines that it asked for, at the end of `_run_pipeline`.
unfoldable pub parent_status : Option Status → Option Status → Status
parent_status classic light =
    let any_failed = is_failed classic || is_failed light in
    let any_done = is_complete classic || is_complete light in
    let any_disabled = is_disabled classic || is_disabled light in
    if any_failed && any_done
    then partial
    else if any_failed
    then failed
    else if not any_done && any_disabled
    then failed
    else done
