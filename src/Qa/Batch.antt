-- ===== src/Qa/Batch.antt =====
-- The batches of qa_service.py. `ask` is run_query, whose state is an argument and a result; what
-- other workers and requests do while a batch is loaded again and while a question is answered is
-- an argument too. Times are left out.
use graphrag_agent.Base.{
  ℕ, zero, suc, ◌+◌, Bool, true, false, ◌||◌, Option, none, some, List, [], ◌∷◌, ◌++◌,
  if◌then◌else◌, length, get_elem?, leb,
}
use graphrag_agent.Base.Text.{Str, codes, or_else}
use graphrag_agent.Application.Rows.{Kind, save, load}

pub data BatchStatus : Type 0 where
  submitted running done cancelled : BatchStatus

-- One entry of the results: the record, or the question with PUBLIC_QA_ERROR.
pub data Result (A : Type 0) : Type 0 where
  answered : A → Result A
  refused : Str → Result A

pub record Batch (A : Type 0) : Type 0 where
  pub batch_id : Str
  pub owner_id : Str
  pub actor_id : Option Str
  pub tenant_id : Str
  pub total : ℕ
  pub completed : ℕ
  pub failed : ℕ
  pub status : BatchStatus
  pub cancel_requested : Bool
  pub questions : List Str
  pub next_index : ℕ
  pub results : List (Result A)
  pub engine : Str
  pub retrieval_mode : Option Str
  pub allowed_document_ids : Option (List Str)

-- The options that a batch gives to run_query.
pub record QueryOptions : Type 0 where
  pub actor_id : Option Str
  pub tenant_id : Option Str
  pub engine : Str
  pub retrieval_mode : Option Str
  pub allowed_document_ids : Option (List Str)

abbrev pub is_over : BatchStatus → Bool
is_over done = true
is_over cancelled = true
is_over other = false

abbrev pub is_cancelled_batch : BatchStatus → Bool
is_cancelled_batch cancelled = true
is_cancelled_batch other = false

abbrev pub is_open_batch : BatchStatus → Bool
is_open_batch submitted = true
is_open_batch running = true
is_open_batch other = false

abbrev pub batches : {A : Type 0} → Kind (Batch A)
batches = record {
  key = λ b. b.batch_id;
  owner = λ b. b.owner_id;
  with_owner = λ o b. record b { owner_id = o };
}

abbrev pub tenant_of : Option Str → Str → Option Str
tenant_of none tenant = none
tenant_of (some []) tenant = none
tenant_of (some (c ∷ s)) tenant = some tenant

abbrev pub actor_of : Option Str → Option Str
actor_of none = none
actor_of (some []) = none
actor_of (some (c ∷ s)) = some (c ∷ s)

-- `processed >= max_items`, where there is a limit
abbrev pub is_reached : Option ℕ → ℕ → Bool
is_reached none processed = false
is_reached (some limit) processed = leb limit processed

module _ {A : Type 0} where
  -- What `_append_batch_result` passes to run_query; run_query's own defaults are the same.
  abbrev pub options_of : Str → Batch A → QueryOptions
  options_of owner b = record {
    actor_id = actor_of b.actor_id;
    tenant_id = tenant_of b.actor_id (or_else b.tenant_id owner);
    engine = or_else b.engine (codes "legacy");
    retrieval_mode = b.retrieval_mode;
    allowed_document_ids = b.allowed_document_ids;
  }

  abbrev pub with_result : Str → Option A → Batch A → Batch A
  with_result question none b = record b {
    failed = b.failed + 1;
    results = b.results ++ refused question ∷ [];
  }
  with_result question (some answer) b = record b {
    completed = b.completed + 1;
    results = b.results ++ answered answer ∷ [];
  }

  abbrev pub with_batch_status : BatchStatus → Batch A → Batch A
  with_batch_status status b = record b { status = status }

  abbrev pub cancelled_batch : Batch A → Batch A
  cancelled_batch b = record b { status = cancelled; cancel_requested = true }

  abbrev pub latest_or : Option (Batch A) → Option (Batch A) → Option (Batch A)
  latest_or none other = other
  latest_or (some b) other = some b

  abbrev pub batch_or : Option (Batch A) → Batch A → Batch A
  batch_or none b = b
  batch_or (some latest) b = latest

-- The batches, and what run_query works on.
pub record Shelf (S A : Type 0) : Type 0 where
  pub rows : List (Batch A)
  pub state : S

pub data Round (A : Type 0) : Type 0 where
  stopped : Batch A → Round A
  went_on : Batch A → Round A
  out_of_range : Round A

-- How a processing ends: no such batch, the batch that is returned, an IndexError, or, in the model
-- only, no fuel.
pub data Processed (A : Type 0) : Type 0 where
  missing : Processed A
  returned : Batch A → Processed A
  raised : Processed A
  out_of_fuel : Processed A

abbrev pub save_batch : {S A : Type 0} → Batch A → Shelf S A → Shelf S A
save_batch b w = record w { rows = save batches b w.rows }

module _ {S A : Type 0} where
  -- `cancel_batch`, with the status before it
  abbrev pub cancel_found : Option (Batch A) → Shelf S A → Shelf S A × Option BatchStatus
  cancel_found none w = (w, none)
  cancel_found (some b) w =
      if is_over b.status
      then (w, some b.status)
      else (save_batch (cancelled_batch b) w, some b.status)

  unfoldable pub cancel_batch : Str → Str → Shelf S A → Shelf S A × Option BatchStatus
  unfolding load save
  cancel_batch id owner w = cancel_found (load batches id owner w.rows) w

module _ {S A : Type 0} (ask : QueryOptions → Str → S → S × Option A) where
  -- `_append_batch_result`
  unfoldable pub append_batch_result : Str → Str → Batch A → S → S × Batch A
  append_batch_result owner question b s =
      let (s', answer) = ask (options_of owner b) question s in (s', with_result question answer b)

  -- `_save_cancelled_batch`
  abbrev pub save_cancelled : Batch A → Shelf S A → Shelf S A × Batch A
  save_cancelled b w = (save_batch (cancelled_batch b) w, cancelled_batch b)

  module _ (reloading answering : Shelf S A → Shelf S A) (id owner : Str) where
    abbrev pub answer_at : Option Str → Batch A → Shelf S A → Shelf S A × Round A
    answer_at none b w = (w, out_of_range)
    answer_at (some question) b w =
        let (s', b') = append_batch_result owner question b w.state in
        let next = record b' { next_index = b'.next_index + 1; status = running } in
        (save_batch next (record (answering w) { state = s' }), went_on next)

    -- The body of the loop, past its test.
    unfoldable pub process_round : List Str → Batch A → Shelf S A → Shelf S A × Round A
    unfolding append_batch_result load save
    process_round questions b w =
        let w' = reloading w in
        let latest = batch_or (load batches id owner w'.rows) b in
        let (closed, c) =
          save_cancelled (record latest { questions = questions; next_index = b.next_index }) w' in
        let next = answer_at (get_elem? questions latest.next_index) latest w' in
        if latest.cancel_requested || is_cancelled_batch latest.status
        then (closed, stopped c)
        else next

    abbrev pub close_batch : List Str → Batch A → Shelf S A → Shelf S A × Processed A
    close_batch questions b w =
        if leb (length questions) b.next_index
        then (save_batch (with_batch_status done b) w, returned (with_batch_status done b))
        else (w, returned b)

    -- The loop, on fuel.
    unfoldable pub process_loop :
        ℕ → Option ℕ → ℕ → List Str → Batch A → Shelf S A → Shelf S A × Processed A
    unfolding process_round
    process_loop zero limit processed questions b w = (w, out_of_fuel)
    process_loop (suc n) limit processed questions b w =
        let (w', round) = process_round questions b w in
        let further : Shelf S A × Processed A = elim round [
          | stopped c ↦ (w', returned c)
          | out_of_range ↦ (w', raised)
          | went_on next ↦ process_loop n limit (suc processed) questions next w'
        ] in
        if leb (length questions) b.next_index || is_reached limit processed
        then close_batch questions b w
        else further

    -- Past the load, with what it found.
    abbrev pub process_found : ℕ → Option ℕ → Option (Batch A) → Shelf S A → Shelf S A × Processed A
    process_found fuel limit none w = (w, missing)
    process_found fuel limit (some b) w =
        let (closed, c) = save_cancelled b w in
        let started = with_batch_status running b in
        let looped = process_loop fuel limit 0 b.questions started (save_batch started w) in
        if is_over b.status
        then (w, returned b)
        else if b.cancel_requested
        then (closed, returned c)
        else if leb (length b.questions) 0
        then (w, returned b)
        else looped

    unfoldable pub process_batch_items :
        ℕ → Option ℕ → Option (Batch A) → Shelf S A → Shelf S A × Processed A
    unfolding process_loop load save
    process_batch_items fuel limit initial w =
        process_found fuel limit (latest_or (load batches id owner w.rows) initial) w

  -- `get_batch_result` where no thread works on the batches: each poll answers one question.
  abbrev pub poll_found : Str → Str → Option (Batch A) → Shelf S A → Shelf S A
  poll_found id owner none w = w
  poll_found id owner (some b) w =
      if is_open_batch b.status
      then (process_batch_items (λ v. v) (λ v. v) id owner 2 (some 1) none w).0
      else w

  unfoldable pub poll_batch : Str → Str → Shelf S A → Shelf S A
  unfolding process_batch_items load
  poll_batch id owner w = poll_found id owner (load batches id owner w.rows) w
