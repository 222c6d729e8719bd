-- ===== src/Qa/Examples.antt =====
-- Runs of qa_service.py on small inputs, and of the rows that it saves.
use graphrag_agent.Base.{ℕ, suc, ◌≡◌, refl, Option, none, some, [], ◌∷◌, arith, ap, get_elem?}
use graphrag_agent.Base.Text.{Str, codes, str_eq}
use graphrag_agent.Application.Rows.{fetch, load, save}
use graphrag_agent.Application.Isolation.{IsKind, load_other-save}
use graphrag_agent.Qa.Batch.{
  running, Batch, QueryOptions, batches, Shelf, answered, refused, options_of, process_batch_items,
  cancel_batch, cancelled_batch, process_loop, returned, cancelled,
}
use graphrag_agent.Qa.Start.{BatchRequest, new_batch, start_batch}
use graphrag_agent.Qa.Progress.{IsStored, answers}
use graphrag_agent.Qa.Waiting.{IsWaiting}
use graphrag_agent.Qa.Outcome.{IsAnswered, start_batch-IsAnswered, polls-thread}
use graphrag_agent.Qa.Polling.{polls}
use graphrag_agent.Qa.Cancellation.{
  process_batch_items-cancel_batch, process_batch_items-cancelled_meanwhile,
}

-- The answer counts what has been asked; an empty question fails.
abbrev counting : QueryOptions → Str → ℕ → ℕ × Option ℕ
counting options [] n = (suc n, none)
counting options (c ∷ q) n = (suc n, some n)

abbrev request : BatchRequest
request = record {
  questions = codes "a" ∷ [] ∷ codes "b" ∷ [];
  actor_id = some (codes "u");
  tenant_id = none;
  engine = codes "lightrag";
  retrieval_mode = none;
  allowed_document_ids = none;
}

abbrev empty_shelf : Shelf ℕ ℕ
empty_shelf = record { rows = []; state = 5 }

abbrev asked : Batch ℕ
asked = new_batch (codes "batch_1") (codes "u") request (codes "lightrag") (some (codes "mix"))

abbrev asked_shelf : Shelf ℕ ℕ
asked_shelf = record { rows = asked ∷ []; state = 5 }

answers_test :
    answers counting (codes "u") (options_of (codes "u") asked) request.questions 5
    ≡ (8, answered 5 ∷ refused [] ∷ answered 7 ∷ [])
unfolding answers
answers_test = refl

start_batch-IsAnswered_example :
    IsAnswered
      (codes "batch_1")
      (codes "u")
      request.questions
      (answers counting (codes "u") (options_of (codes "u") asked) request.questions 5)
      (process_batch_items counting
        (λ v. v)
        (λ v. v)
        (codes "batch_1")
        (codes "u")
        9
        none
        (some asked)
        (start_batch (codes "batch_1") (codes "u") request empty_shelf).0)
unfolding fetch str_eq
start_batch-IsAnswered_example =
    start_batch-IsAnswered counting (codes "batch_1") (codes "u") request empty_shelf
      (codes "lightrag") (some (codes "mix")) 9 (some asked) refl refl refl (omega arith)
      (omega arith)

polls-thread_example :
    polls counting
      (codes "batch_1")
      (codes "u")
      3
      (start_batch (codes "batch_1") (codes "u") request empty_shelf).0
    ≡ (process_batch_items counting
        (λ v. v)
        (λ v. v)
        (codes "batch_1")
        (codes "u")
        9
        none
        none
        (start_batch (codes "batch_1") (codes "u") request empty_shelf).0).0
unfolding fetch str_eq
polls-thread_example =
    polls-thread counting (codes "batch_1") (codes "u") request empty_shelf (codes "lightrag")
      (some (codes "mix")) 9 none refl refl refl (omega arith) (omega arith)

asked-IsStored : IsStored (codes "batch_1") (codes "u") asked asked_shelf
unfolding fetch str_eq
asked-IsStored = record { row = refl; key = refl; owned = refl; named = refl }

asked-IsWaiting : IsWaiting (codes "batch_1") (codes "u") request.questions asked asked_shelf
asked-IsWaiting = record {
  stored = asked-IsStored;
  unfinished = refl;
  unrequested = refl;
  at = record { there = λ j. ap (get_elem? request.questions) (omega arith); size = refl };
  asked = omega arith;
}

process_batch_items-cancel_batch_example :
    let id = codes "batch_1" in
    let owner = codes "u" in
    let w' = (cancel_batch id owner asked_shelf).0 in
    let (shelf, end) =
      process_loop counting
        (λ v. (cancel_batch id owner v).0)
        (λ v. v)
        id
        owner
        9
        none
        0
        asked.questions
        asked
        asked_shelf in
    ((process_batch_items counting (λ v. v) (λ v. v) id owner 9 none none w').0 ≡ w')
    × (shelf.state ≡ 5)
    × (c : Batch ℕ) × (end ≡ returned c)
    × (c.status ≡ cancelled)
    × (c.results ≡ [])
process_batch_items-cancel_batch_example =
    process_batch_items-cancel_batch counting (codes "batch_1") (codes "u") (λ v. v) (λ v. v) 9 8
      none 0 asked.questions none asked asked_shelf asked-IsStored refl refl refl

process_batch_items-cancelled_meanwhile_example :
    process_batch_items counting
      (λ v. v)
      (λ v. (cancel_batch (codes "batch_1") (codes "u") v).0)
      (codes "batch_1")
      (codes "u")
      9
      none
      none
      asked_shelf
    ≡ process_batch_items counting
        (λ v. v)
        (λ v. v)
        (codes "batch_1")
        (codes "u")
        9
        none
        none
        asked_shelf
process_batch_items-cancelled_meanwhile_example =
    process_batch_items-cancelled_meanwhile counting (codes "batch_1") (codes "u") 9 none
      request.questions asked asked_shelf asked-IsWaiting (omega arith)

abbrev withdrawn : Batch ℕ
withdrawn = cancelled_batch (record asked { results = answered 4 ∷ []; next_index = 1 })

-- The batch as it is cancelled after its first question.
abbrev withdrawing : Shelf ℕ ℕ → Shelf ℕ ℕ
withdrawing w = record w { rows = withdrawn ∷ [] }

batches-IsKind : IsKind (batches {A = ℕ})
batches-IsKind = record { key_kept = λ o row. refl; owner_set = λ o row. refl }

abbrev stranger : Batch ℕ
stranger = record asked { owner_id = codes "v"; status = running }

load_other-save_example :
    load batches (codes "batch_1") (codes "u") (save batches stranger (asked ∷ []))
    ≡ load batches (codes "batch_1") (codes "u") (asked ∷ [])
unfolding str_eq
load_other-save_example =
    load_other-save batches batches-IsKind (codes "batch_1") (codes "u") stranger (asked ∷ []) refl
