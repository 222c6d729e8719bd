-- ===== src/Qa/Rounds.antt =====
-- One round of a batch of qa_service.py while nobody interferes, and the loop's end.
use graphrag_agent.Base.{
  ℕ, suc, ◌≡◌, refl, ap, ◌∙◌, true, false, ◌||◌, Option, some, List, length, get_elem?, leb,
}
use graphrag_agent.Base.Text.{Str}
use graphrag_agent.Application.Rows.{store, load, save}
use graphrag_agent.Qa.Batch.{
  done, Batch, QueryOptions, batches, is_cancelled_batch, with_batch_status, Shelf, went_on,
  returned, save_batch, process_round, process_loop, is_reached, cancelled_batch, stopped,
}
use graphrag_agent.Qa.Progress.{
  IsStored, stored-load, store-IsStored, answer_one, answer_one-IsKept,
}

module _ {A : Type 0} where
  -- Nobody has asked for an end.
  pub record IsLive (b : Batch A) : Type 0 where
    pub unrequested : b.cancel_requested ≡ false
    pub uncancelled : is_cancelled_batch b.status ≡ false

  -- How a batch that shows a cancellation is closed.
  abbrev pub closed_batch : List Str → Batch A → Batch A → Batch A
  closed_batch qs b latest =
      cancelled_batch (record latest { questions = qs; next_index = b.next_index })

  abbrev pub shelf_with : {S : Type 0} → Batch A → S → List (Batch A) → Shelf S A
  shelf_with b s rows = record { rows = store batches b rows; state = s }

module _ {S A : Type 0} where
  -- What happens to the rows while a question is answered is undone when the answer is saved.
  pub record IsHarmless (id owner : Str) (answering : Shelf S A → Shelf S A) : Type 0 where
    pub undone :
        (b c : Batch A) (w : Shelf S A)
        → IsStored id owner b w
        → c.batch_id ≡ id
        → c.owner_id ≡ owner
        → save batches c (answering w).rows ≡ store batches c w.rows

pub idle-IsHarmless : {S A : Type 0} (id owner : Str) → IsHarmless id owner (λ (v : Shelf S A). v)
idle-IsHarmless id owner = record {
  undone = λ b c w st key owned. (store-IsStored id owner b c w w.state st key owned).0;
}

module _ {S A : Type 0} (ask : QueryOptions → Str → S → S × Option A) (id owner : Str) where
  abbrev pub next_of : Str → Batch A → Shelf S A → S × Batch A
  next_of q b w = answer_one ask owner q (w.state, b)

  pub quiet_round :
      (answering : Shelf S A → Shelf S A) (qs : List Str) (q : Str) (b : Batch A) (w : Shelf S A)
      → IsHarmless id owner answering
      → IsStored id owner b w
      → IsLive b
      → get_elem? qs b.next_index ≡ some q
      → process_round ask (λ v. v) answering id owner qs b w
        ≡ (shelf_with (next_of q b w).1 (next_of q b w).0 w.rows, went_on (next_of q b w).1)
  unfolding process_round answer_one
  quiet_round answering qs q b w harmless st live at =
      let k = answer_one-IsKept ask owner q w.state b in
      simp (stored-load id owner b w st, live.unrequested, live.uncancelled, at)
        (ap
          (λ (rows : List (Batch A)).
            (record { rows = rows; state = (next_of q b w).0 }, went_on (next_of q b w).1))
          (harmless.undone b (next_of q b w).1 w st (k.0 ∙ st.key) (k.1 ∙ st.owned)))

  module _ (reloading answering : Shelf S A → Shelf S A) (n : ℕ) (limit : Option ℕ) (p : ℕ) where
    pub loop_over :
        (qs : List Str) (b : Batch A) (w : Shelf S A)
        → leb (length qs) b.next_index ≡ true
        → process_loop ask reloading answering id owner (suc n) limit p qs b w
          ≡ (save_batch (with_batch_status done b) w, returned (with_batch_status done b))
    unfolding process_loop
    loop_over qs b w over = simp (over) refl

    pub loop_reached :
        (qs : List Str) (b : Batch A) (w : Shelf S A)
        → leb (length qs) b.next_index ≡ false
        → is_reached limit p ≡ true
        → process_loop ask reloading answering id owner (suc n) limit p qs b w ≡ (w, returned b)
    unfolding process_loop
    loop_reached qs b w further reached = simp (further, reached) refl

    pub loop_went_on :
        (qs : List Str) (b c : Batch A) (w w' : Shelf S A)
        → leb (length qs) b.next_index ≡ false
        → is_reached limit p ≡ false
        → process_round ask reloading answering id owner qs b w ≡ (w', went_on c)
        → process_loop ask reloading answering id owner (suc n) limit p qs b w
          ≡ process_loop ask reloading answering id owner n limit (suc p) qs c w'
    unfolding process_loop
    loop_went_on qs b c w w' further below round = simp (further, below, round) refl

    pub loop_stopped :
        (qs : List Str) (b c : Batch A) (w w' : Shelf S A)
        → leb (length qs) b.next_index ≡ false
        → is_reached limit p ≡ false
        → process_round ask reloading answering id owner qs b w ≡ (w', stopped c)
        → process_loop ask reloading answering id owner (suc n) limit p qs b w ≡ (w', returned c)
    unfolding process_loop
    loop_stopped qs b c w w' further below round = simp (further, below, round) refl

  pub round_stopped :
      (reloading answering : Shelf S A → Shelf S A) (qs : List Str) (b latest : Batch A)
      (w : Shelf S A)
      → load batches id owner (reloading w).rows ≡ some latest
      → latest.cancel_requested || is_cancelled_batch latest.status ≡ true
      → process_round ask reloading answering id owner qs b w
        ≡ (save_batch (closed_batch qs b latest) (reloading w), stopped (closed_batch qs b latest))
  unfolding process_round
  round_stopped reloading answering qs b latest w found ends = simp (found, ends) refl
