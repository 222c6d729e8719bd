-- ===== src/Indexing/Publishing.antt =====
-- How the classic engine's run in indexing_service.py ends when others cancel its job or delete its
-- document meanwhile.
use graphrag_agent.Base.{
  ℕ, ◌≡◌, refl, Bool, true, false, ◌⊎◌, inl, inr, some, List, [], ◌∷◌, arith, Bool-cases, subst,
  sym,
}
use graphrag_agent.Base.Text.{Str, codes, elem}
use graphrag_agent.Documents.Status.{done}
use graphrag_agent.Indexing.Jobs.{World, is_cancelled, index_write_is_allowed}
use graphrag_agent.Indexing.Cancel.{without_graph}
use graphrag_agent.Indexing.Engine.{
  Ended, completed, stopped, Others, save_job_artifact, save_artifacts, blob_key, announce,
  announce_done, publish, last_artifacts, graph_removed,
}

pub elem-without_graph :
    (doc : Str) (graphs : List Str) → elem doc (without_graph doc graphs) ≡ false
unfolding elem
elem-without_graph doc [] = refl
elem-without_graph doc (g ∷ graphs) = ground (arith, elem-without_graph doc graphs)

save_job_artifact-cancelled :
    (saving : World → World) (job name : Str) (w : World)
    → (save_job_artifact saving job name w).1 ≡ true
    → is_cancelled job (save_job_artifact saving job name w).0 ≡ true
unfolding save_job_artifact is_cancelled
save_job_artifact-cancelled saving job name w h = ground (arith, h)

-- Saving stops only where the job shows as cancelled.
save_artifacts-cancelled :
    (saving : Str → World → World) (job : Str) (names : List Str) (w : World)
    → (save_artifacts saving job names w).1 ≡ true
    → is_cancelled job (save_artifacts saving job names w).0 ≡ true
unfolding save_artifacts
save_artifacts-cancelled saving job [] w h = ground (arith, h)
save_artifacts-cancelled saving job (name ∷ names) w h =
    let one = save_job_artifact (saving name) job name w in
    elim (Bool-cases one.1) [
      | inl stop ↦ rw stop (save_job_artifact-cancelled (saving name) job name w stop)
      | inr on ↦ rw on (save_artifacts-cancelled saving job names one.0 (ground (arith, h, on)))
    ]

pub allowed-live :
    (job doc : Str) (w : World)
    → index_write_is_allowed job doc w ≡ true
    → is_cancelled job w ≡ false
unfolding index_write_is_allowed
allowed-live job doc w h = ground (arith, h)

-- A cancellation that shows once the first artifact is stored stops the saving.
save_artifacts-late :
    (saving : Str → World → World) (job : Str) (w : World)
    → let name = codes "kg_nodes.json" in
      let stored = saving name (record w { blobs = blob_key job name ∷ w.blobs }) in
      is_cancelled job w ≡ false
      → is_cancelled job stored ≡ true
      → ((save_artifacts saving job last_artifacts w).1 ≡ true)
        × ((save_artifacts saving job last_artifacts w).0.graphs ≡ stored.graphs)
unfolding save_artifacts save_job_artifact
save_artifacts-late saving job w live late = (rw (live, late) refl, rw (live, late) refl)

module _ (enabled : Bool) (others : Others) (job doc : Str) (pages : ℕ) where
  -- The state at the check in front of the graph's write, the one that the write finds, the one at the
  -- check behind it, and the one when the first artifact is stored.
  abbrev at_write : World → World
  at_write w = others.before_write w

  abbrev found_by_write : World → World
  found_by_write w = others.writing (at_write w)

  abbrev pub behind_write : World → World
  behind_write w =
      others.after_write (record (found_by_write w) { graphs = doc ∷ (found_by_write w).graphs })

  abbrev at_artifact : World → World
  at_artifact w = others.saving (codes "kg_nodes.json") (record (behind_write w) {
    blobs = blob_key job (codes "kg_nodes.json") ∷ (behind_write w).blobs;
  })

  -- The check behind the graph's write passed, an artifact's saving behind it stopped the run, and
  -- the state is the one that it left, in which the job is cancelled.
  abbrev pub StopsSaving : World → World → Type 0
  StopsSaving w w' =
      let saved = save_artifacts others.saving job last_artifacts (behind_write w) in
      (index_write_is_allowed job doc (behind_write w) ≡ true)
      × (saved.1 ≡ true)
      × (w' ≡ saved.0)
      × (is_cancelled job w' ≡ true)

  -- The run completed and the job may still write; or it stopped, and has written no graph, or has
  -- removed the document's graph again, or has stopped while it saved an artifact.
  abbrev pub Ends : World → World × Ended → Type 0
  Ends w r =
      ((r.1 ≡ completed) × (index_write_is_allowed job doc r.0 ≡ true))
      ⊎ ((r.1 ≡ stopped)
          × (((index_write_is_allowed job doc (at_write w) ≡ false) × (r.0 ≡ at_write w))
              ⊎ (elem doc r.0.graphs ≡ false)
              ⊎ StopsSaving w r.0))

  announce_done-Ends : (w v : World) → Ends w (announce_done enabled others job doc pages v)
  unfolding announce_done
  announce_done-Ends w v =
      let ready = others.before_done v in
      let told = others.after_done (announce enabled job doc done (some pages) ready) in
      elim (Bool-cases (index_write_is_allowed job doc ready)) [
        | inr out ↦ rw out (inr (refl, inr (inl (elem-without_graph doc ready.graphs))))
        | inl on ↦ elim (Bool-cases (index_write_is_allowed job doc told)) [
          | inr late ↦ rw (on, late) (inr (refl, inr (inl (elem-without_graph doc told.graphs))))
          | inl kept ↦ rw (on, kept) (inl (refl, kept))
        ]
      ]

  -- Whatever others do meanwhile, the part of the run that writes ends in one of two ways. It
  -- completes, and then the job is not cancelled and the document still there. Or it stops, and
  -- then the check in front of the graph's write failed and it has written nothing, or the
  -- document's graph is not in the store, or the check behind the write had passed, and the saving
  -- of a later artifact found the job cancelled and stopped the run.
  pub publish-Ends : (w : World) → Ends w (publish enabled others job doc pages w)
  unfolding publish
  publish-Ends w =
      let run : World × Ended = publish enabled others job doc pages w in
      let before = others.before_write w in
      let written = behind_write w in
      let saved = save_artifacts others.saving job last_artifacts written in
      elim (Bool-cases (index_write_is_allowed job doc before)) [
        | inr out ↦
            let stops : run ≡ (before, stopped) = rw out refl in
            subst (Ends w) (sym stops) (inr (refl, inl (out, refl)))
        | inl on ↦ elim (Bool-cases (index_write_is_allowed job doc written)) [
          | inr late ↦
              let stops : run ≡ (graph_removed doc written, stopped) = rw (on, late) refl in
              subst (Ends w) (sym stops)
                (inr (refl, inr (inl (elem-without_graph doc written.graphs))))
          | inl kept ↦ elim (Bool-cases saved.1) [
            | inl stop ↦
                let stops : run ≡ (saved.0, stopped) = rw (on, kept, stop) refl in
                let late = save_artifacts-cancelled others.saving job last_artifacts written stop in
                subst (Ends w) (sym stops) (inr (refl, inr (inr (kept, stop, refl, late))))
            | inr go ↦
                let goes : run ≡ announce_done enabled others job doc pages saved.0 =
                  rw (on, kept, go) refl in
                subst (Ends w) (sym goes) (announce_done-Ends w saved.0)
          ]
        ]
      ]

  -- A cancellation that arrives after the check behind the graph's write, and shows when the first
  -- artifact is saved, stops the run and leaves the document's graph in the store.
  pub publish_leaves_graph :
      (w : World)
      → index_write_is_allowed job doc (at_write w) ≡ true
      → index_write_is_allowed job doc (behind_write w) ≡ true
      → is_cancelled job (at_artifact w) ≡ true
      → elem doc (at_artifact w).graphs ≡ true
      → let (w', e) = publish enabled others job doc pages w in
        (e ≡ stopped) × (elem doc w'.graphs ≡ true)
  unfolding publish
  publish_leaves_graph w on kept late left =
      let before = others.before_write w in
      let written = behind_write w in
      let live = allowed-live job doc written kept in
      rw (on, kept, (save_artifacts-late others.saving job written live late).0)
        (refl, rw ((save_artifacts-late others.saving job written live late).1) left)
