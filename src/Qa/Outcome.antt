-- ===== src/Qa/Outcome.antt =====
-- What becomes of a batch of qa_service.py that is started and that nobody interferes with.
use graphrag_agent.Base.{
  ℕ, ◌+◌, ◌<◌, ◌≡◌, refl, sym, ap, ◌∙◌, true, Option, none, some, List, length, get_elem?, arith,
  subst,
}
use graphrag_agent.Base.Text.{Str, codes, nonempty, or_else, str_eq_refl, or_else-nonempty}
use graphrag_agent.Application.Rows.{fetch, load}
use graphrag_agent.Application.Isolation.{fetch-store, save_new-store}
use graphrag_agent.Qa.Batch.{
  done, Batch, QueryOptions, batches, options_of, Shelf, returned, process_batch_items, Result,
  Processed,
}
use graphrag_agent.Qa.Start.{
  BatchRequest, EngineMode, engine_mode, normalize_engine_mode, new_batch, start_batch,
  batch_started,
}
use graphrag_agent.Qa.Progress.{
  IsStored, stored-load, IsStored, answers, advance, advance-answers, store-IsStored,
}
use graphrag_agent.Qa.Rounds.{shelf_with, idle-IsHarmless}
use graphrag_agent.Qa.Completion.{advance-key, completed_with, shelf_after, advance-owner}
use graphrag_agent.Qa.Waiting.{started, IsWaiting, quiet_items}
use graphrag_agent.Qa.Polling.{polls, quiet_polls}

module _ {S A : Type 0} (id owner : Str) (r : BatchRequest) (w : Shelf S A) where
  start_batch-shelf :
      (engine : Str) (mode : Option Str)
      → normalize_engine_mode r.engine r.retrieval_mode ≡ engine_mode engine mode
      → fetch batches id w.rows ≡ none
      → nonempty owner ≡ true
      → (start_batch {A = A} id owner r w).0
        ≡ shelf_with (new_batch id owner r engine mode) w.state w.rows
  start_batch-shelf engine mode normal fresh named =
      let b : Batch A = new_batch id owner r engine mode in
      let same : record b { owner_id = or_else owner (codes "default") } ≡ b =
        ap (λ (o : Str). record b { owner_id = o })
          (or_else-nonempty owner (codes "default") named) in
      ap (λ (e : EngineMode). (batch_started id owner r e w).0) normal
      ∙ ap (λ (rows : List (Batch A)). record { rows = rows; state = w.state })
          (save_new-store batches b w.rows fresh same)

  -- The batch that is started waits for its first question.
  started-IsWaiting :
      (engine : Str) (mode : Option Str)
      → nonempty owner ≡ true
      → 0 < length r.questions
      → let b = new_batch id owner r engine mode in
        IsWaiting id owner r.questions b (shelf_with b w.state w.rows)
  started-IsWaiting engine mode named asked =
      let b : Batch A = new_batch id owner r engine mode in
      record {
        stored = record {
          row = fetch-store batches b w.rows id ∙ rw (str_eq_refl id) refl;
          key = refl;
          owned = refl;
          named = named;
        };
        unfinished = refl;
        unrequested = refl;
        at = record { there = λ j. ap (get_elem? r.questions) (omega arith); size = omega arith };
        asked = asked;
      }

-- How a batch ends whose questions have been answered: it is done, its results are the answers to
-- the questions in their order, the answers and the failures together are as many as the questions,
-- and what is returned is what the owner loads.
pub record IsAnswered {S A : Type 0} (id owner : Str) (questions : List Str)
    (answered : S × List (Result A)) (out : Shelf S A × Processed A) : Type 0 where
  pub batch : Batch A
  pub end : out.1 ≡ returned batch
  pub loaded : load batches id owner out.0.rows ≡ some batch
  pub reached : out.0.state ≡ answered.0
  pub closed : batch.status ≡ done
  pub given : batch.results ≡ answered.1
  pub counted : batch.completed + batch.failed ≡ length questions
  pub expected : batch.total ≡ length questions

module _ {S A : Type 0} (ask : QueryOptions → Str → S → S × Option A) (id owner : Str)
    (r : BatchRequest) (w : Shelf S A) where
  waiting_new :
      (engine : Str) (mode : Option Str) (fuel : ℕ) (initial : Option (Batch A))
      → nonempty owner ≡ true
      → 0 < length r.questions
      → length r.questions < fuel
      → let b = new_batch {A = A} id owner r engine mode in
        IsAnswered id owner r.questions
          (answers ask owner (options_of owner b) r.questions w.state)
          (process_batch_items ask
            (λ v. v)
            (λ v. v)
            id
            owner
            fuel
            none
            initial
            (shelf_with b w.state w.rows))
  waiting_new engine mode fuel initial named asked enough =
      let b : Batch A = new_batch id owner r engine mode in
      let v = shelf_with b w.state w.rows in
      let h = started-IsWaiting id owner r w engine mode named asked in
      let ran =
        quiet_items ask id owner (λ v. v) fuel initial r.questions b v (idle-IsHarmless id owner) h
          enough in
      let last = completed_with ask id owner r.questions (started b) w.state in
      let given = advance-answers ask owner r.questions w.state (started b) in
      let key : last.batch_id ≡ id = advance-key ask id owner r.questions w.state (started b) in
      let stored : IsStored id owner last (shelf_after ask id owner r.questions (started b) v) =
        (store-IsStored id owner b last v (advance ask owner r.questions (w.state, started b)).0
          h.stored key (advance-owner ask id owner r.questions w.state (started b))).1 in
      record {
        batch = last;
        end = ap (λ x. x.1) ran;
        loaded = ap (λ x. load batches id owner x.0.rows) ran ∙ stored-load id owner last _ stored;
        reached = ap (λ x. x.0.state) ran ∙ given.0;
        closed = refl;
        given = given.1;
        counted = omega (arith, given.3);
        expected = given.4;
      }

  -- A batch that is started under a new id, for a named owner and with questions, is answered to
  -- the end by its thread, whatever the fuel above the number of its questions, when nobody
  -- interferes.
  pub start_batch-IsAnswered :
      (engine : Str) (mode : Option Str) (fuel : ℕ) (initial : Option (Batch A))
      → normalize_engine_mode r.engine r.retrieval_mode ≡ engine_mode engine mode
      → fetch batches id w.rows ≡ none
      → nonempty owner ≡ true
      → 0 < length r.questions
      → length r.questions < fuel
      → IsAnswered id owner r.questions
          (answers ask owner
            (options_of owner (new_batch {A = A} id owner r engine mode))
            r.questions
            w.state)
          (process_batch_items ask
            (λ v. v)
            (λ v. v)
            id
            owner
            fuel
            none
            initial
            (start_batch id owner r w).0)
  start_batch-IsAnswered engine mode fuel initial normal fresh named asked enough =
      subst
        (λ (v : Shelf S A).
          IsAnswered id owner r.questions
            (answers ask owner (options_of owner (new_batch {A = A} id owner r engine mode))
              r.questions w.state)
            (process_batch_items ask (λ v. v) (λ v. v) id owner fuel none initial v))
        (sym (start_batch-shelf id owner r w engine mode normal fresh named))
        (waiting_new engine mode fuel initial named asked enough)

  -- Polling such a batch once per question leaves the rows and what run_query works on as the
  -- thread does.
  pub polls-thread :
      (engine : Str) (mode : Option Str) (fuel : ℕ) (initial : Option (Batch A))
      → normalize_engine_mode r.engine r.retrieval_mode ≡ engine_mode engine mode
      → fetch batches id w.rows ≡ none
      → nonempty owner ≡ true
      → 0 < length r.questions
      → length r.questions < fuel
      → polls ask id owner (length r.questions) (start_batch id owner r w).0
        ≡ (process_batch_items ask
            (λ v. v)
            (λ v. v)
            id
            owner
            fuel
            none
            initial
            (start_batch id owner r w).0).0
  polls-thread engine mode fuel initial normal fresh named asked enough =
      let b : Batch A = new_batch id owner r engine mode in
      let v = shelf_with b w.state w.rows in
      let h = started-IsWaiting id owner r w engine mode named asked in
      subst
        (λ (x : Shelf S A).
          polls ask id owner (length r.questions) x
          ≡ (process_batch_items ask (λ v. v) (λ v. v) id owner fuel none initial x).0)
        (sym (start_batch-shelf id owner r w engine mode normal fresh named))
        (quiet_polls ask id owner r.questions b v asked h
          ∙ sym (
              ap (λ x. x.0)
                (quiet_items ask id owner (λ v. v) fuel initial r.questions b v
                  (idle-IsHarmless id owner) h enough)))
