-- ===== src/Documents/Examples.antt =====
-- The theorems on a document's deletion at a small state.
use graphrag_agent.Base.{◌≡◌, refl, true, false, none, [], ◌∷◌}
use graphrag_agent.Base.Text.{codes, str_eq, elem}
use graphrag_agent.Documents.Status.{Document, queued, pending, EngineState, get_document}
use graphrag_agent.Documents.Removal.{delete_document}
use graphrag_agent.Documents.Removed.{delete_document_lem}
use graphrag_agent.Indexing.Jobs.{Meta, World, index, index_write_is_allowed}

abbrev waiting : EngineState
waiting = record { status = pending; job_id = none; error = none }

abbrev job : Meta
job = record {
  job_id = codes "j1";
  job_type = index;
  doc_id = codes "d1";
  source_doc_id = [];
  owner_id = codes "o1";
  status = queued;
  error = none;
  classic = waiting;
  light = waiting;
  targets_classic = true;
  targets_light = true;
  artifacts = [];
  deletion_cancelled = false;
}

abbrev paper : Document
paper = record {
  doc_id = codes "d1";
  owner_id = codes "o1";
  status = codes "uploaded";
  classic_index = none;
  light_index = none;
  pages = none;
}

abbrev world : World
world = record {
  jobs = job ∷ [];
  documents = paper ∷ [];
  flags = [];
  graphs = codes "d1" ∷ codes "d2" ∷ [];
  deletions = [];
  blobs = [];
}

delete_document_lem_example :
    let (w', ok) = delete_document true (codes "d1") world in
    (ok ≡ true)
    × (get_document (codes "d1") w'.documents ≡ none)
    × (index_write_is_allowed (codes "j1") (codes "d1") w' ≡ false)
    × (elem (codes "d1") w'.graphs ≡ false)
    × (elem (codes "d2") w'.graphs ≡ elem (codes "d2") world.graphs)
unfolding str_eq get_document
delete_document_lem_example =
    delete_document_lem true (codes "d1") (codes "d2") (codes "j1") world paper refl refl
