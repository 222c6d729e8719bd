-- ===== src/Documents/Races.antt =====
-- delete_document of document_service.py against a run of the classic engine in indexing_service.py.
use graphrag_agent.Base.{Bool}
use graphrag_agent.Base.Text.{Str}
use graphrag_agent.Indexing.Engine.{Others}
use graphrag_agent.Documents.Saving.{same, deleting}

-- Where in the engine's run the deletion falls: before one of its four checks of the write, between
-- the first of them and the graph's write, or while an artifact is stored.
pub data Moment : Type 0 where
  first_check upsert second_check artifact third_check last_check : Moment

abbrev quiet : Others
quiet = record {
  extracting = same;
  saving = λ _. same;
  before_write = same;
  writing = same;
  after_write = same;
  before_done = same;
  after_done = same;
}

-- The deletion at one moment, and nothing else meanwhile.
abbrev pub deletes_at : Bool → Str → Moment → Others
deletes_at enabled doc first_check = record quiet { before_write = deleting enabled doc }
deletes_at enabled doc upsert = record quiet { writing = deleting enabled doc }
deletes_at enabled doc second_check = record quiet { after_write = deleting enabled doc }
deletes_at enabled doc artifact = record quiet { saving = λ _. deleting enabled doc }
deletes_at enabled doc third_check = record quiet { before_done = deleting enabled doc }
deletes_at enabled doc last_check = record quiet { after_done = deleting enabled doc }
