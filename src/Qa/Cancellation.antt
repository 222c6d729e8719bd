-- ===== src/Qa/Cancellation.antt =====
-- A cancellation of a batch of qa_service.py meets its processing: between two questions it is
-- heeded, while a question is being answered it is lost.
use graphrag_agent.Base.{
  ℕ, suc, ◌<◌, ◌≡◌, refl, sym, ap, ◌∙◌, true, false, ◌||◌, Option, none, some, List, if◌then◌else◌,
  length, leb, subst, Bool-cases, inl, inr,
}
use graphrag_agent.Base.Text.{Str, str_eq_refl}
use graphrag_agent.Application.Rows.{load, save}
use graphrag_agent.Application.Isolation.{store-store}
use graphrag_agent.Qa.Batch.{
  cancelled, Batch, QueryOptions, batches, is_over, is_cancelled_batch, is_reached, cancelled_batch,
  Shelf, returned, process_loop, process_batch_items, cancel_batch, cancel_found, save_batch,
  process_found, latest_or,
}
use graphrag_agent.Qa.Progress.{IsStored, stored-load, store-IsStored}
use graphrag_agent.Qa.Rounds.{
  IsHarmless, idle-IsHarmless, shelf_with, loop_stopped, round_stopped, closed_batch,
}
use graphrag_agent.Qa.Completion.{stored_save}
use graphrag_agent.Qa.Waiting.{IsWaiting, quiet_items}

module _ {S A : Type 0} (id owner : Str) where
  cancel_batch-rows :
      (b : Batch A) (w : Shelf S A)
      → IsStored id owner b w
      → (cancel_batch id owner w).0
        ≡ (if is_over b.status then w else shelf_with (cancelled_batch b) w.state w.rows)
  unfolding cancel_batch
  cancel_batch-rows b w st =
      ap (λ (o : Option (Batch A)). (cancel_found o w).0) (stored-load id owner b w st)
      ∙ elim (Bool-cases (is_over b.status)) [
        | inl over ↦ rw over refl
        | inr going ↦ rw going (stored_save id owner b (cancelled_batch b) w st st.key st.owned)
      ]

  -- Whoever cancels while a question is answered does so in vain.
  pub cancel_batch-IsHarmless : IsHarmless id owner (λ (v : Shelf S A). (cancel_batch id owner v).0)
  cancel_batch-IsHarmless = record {
    undone = λ b c w st key owned. elim (Bool-cases (is_over b.status)) [
      | inl over ↦
          let e : (cancel_batch id owner w).0 ≡ w = cancel_batch-rows b w st ∙ rw over refl in
          ap (λ (v : Shelf S A). save batches c v.rows) e
          ∙ (store-IsStored id owner b c w w.state st key owned).0
      | inr going ↦
          let x = cancelled_batch b in
          let st' = (store-IsStored id owner b x w w.state st st.key st.owned).1 in
          let e : (cancel_batch id owner w).0 ≡ shelf_with x w.state w.rows =
            cancel_batch-rows b w st ∙ rw going refl in
          ap (λ (v : Shelf S A). save batches c v.rows) e
          ∙ (store-IsStored id owner x c (shelf_with x w.state w.rows) w.state st' key owned).0
          ∙ store-store batches x c w.rows (rw (st.key, key) (str_eq_refl id))
    ];
  }

module _ {S A : Type 0} (ask : QueryOptions → Str → S → S × Option A) (id owner : Str) where
  -- A batch that is over is left alone by whoever processes it.
  over_stays :
      (reloading answering : Shelf S A → Shelf S A) (fuel : ℕ) (limit : Option ℕ)
      (initial : Option (Batch A)) (b : Batch A) (w : Shelf S A)
      → IsStored id owner b w
      → is_over b.status ≡ true
      → process_batch_items ask reloading answering id owner fuel limit initial w ≡ (w, returned b)
  unfolding process_batch_items
  over_stays reloading answering fuel limit initial b w st over =
      ap
        (λ (o : Option (Batch A)).
          process_found ask reloading answering id owner fuel limit (latest_or o initial) w)
        (stored-load id owner b w st)
      ∙ rw over refl

  -- What starts to process a batch after its cancellation changes nothing.
  cancelled_stays :
      (reloading answering : Shelf S A → Shelf S A) (fuel : ℕ) (limit : Option ℕ)
      (initial : Option (Batch A)) (b : Batch A) (w : Shelf S A)
      → IsStored id owner b w
      → (process_batch_items ask reloading answering id owner fuel limit initial
          (cancel_batch id owner w).0).0
        ≡ (cancel_batch id owner w).0
  cancelled_stays reloading answering fuel limit initial b w st =
      let run : Shelf S A → Shelf S A =
        λ v. (process_batch_items ask reloading answering id owner fuel limit initial v).0 in
      let stays : (v : Shelf S A)
          → v ≡ (cancel_batch id owner w).0
          → run v ≡ v
          → run (cancel_batch id owner w).0 ≡ (cancel_batch id owner w).0 =
        λ v e h. subst (λ x. run x ≡ x) e h in
      elim (Bool-cases (is_over b.status)) [
        | inl over ↦
            stays w (sym (cancel_batch-rows id owner b w st ∙ rw over refl))
              (ap (λ x. x.0) (over_stays reloading answering fuel limit initial b w st over))
        | inr going ↦
            let x = cancelled_batch b in
            let st' = (store-IsStored id owner b x w w.state st st.key st.owned).1 in
            stays (shelf_with x w.state w.rows)
              (sym (cancel_batch-rows id owner b w st ∙ rw going refl))
              (ap (λ y. y.0)
                (over_stays reloading answering fuel limit initial x (shelf_with x w.state w.rows)
                  st' refl))
      ]

  -- When the batch is loaded again before a question and shows a cancellation, that question and
  -- those after it are not asked, and the batch is returned as cancelled with the results so far.
  pub process_loop-cancelled :
      (reloading answering : Shelf S A → Shelf S A) (n : ℕ) (limit : Option ℕ) (p : ℕ)
      (qs : List Str) (b latest : Batch A) (w : Shelf S A)
      → leb (length qs) b.next_index ≡ false
      → is_reached limit p ≡ false
      → load batches id owner (reloading w).rows ≡ some latest
      → latest.cancel_requested || is_cancelled_batch latest.status ≡ true
      → let (w', end) = process_loop ask reloading answering id owner (suc n) limit p qs b w in
        (w'.state ≡ (reloading w).state)
        × (c : Batch A) × (end ≡ returned c)
        × (c.status ≡ cancelled)
        × (c.results ≡ latest.results)
  process_loop-cancelled reloading answering n limit p qs b latest w further under found ends =
      let c = closed_batch qs b latest in
      let ran =
        loop_stopped ask id owner reloading answering n limit p qs b c w
          (save_batch c (reloading w)) further under
          (round_stopped ask id owner reloading answering qs b latest w found ends) in
      (ap (λ x. x.0.state) ran, c, ap (λ x. x.1) ran, refl, refl)

  -- The cancellation of an open batch that its owner has stored is heeded where no question is being
  -- answered. A processing that starts once cancel_batch has answered changes nothing. And where the
  -- cancellation falls between two questions of a processing that could still ask, that processing
  -- asks none of the questions left, and returns the batch as cancelled, with the results so far.
  pub process_batch_items-cancel_batch :
      (reloading answering : Shelf S A → Shelf S A) (fuel n : ℕ) (limit : Option ℕ) (p : ℕ)
      (qs : List Str) (initial : Option (Batch A)) (b : Batch A) (w : Shelf S A)
      → IsStored id owner b w
      → is_over b.status ≡ false
      → leb (length qs) b.next_index ≡ false
      → is_reached limit p ≡ false
      → let w' = (cancel_batch id owner w).0 in
        let (shelf, end) =
          process_loop ask
            (λ v. (cancel_batch id owner v).0)
            answering
            id
            owner
            (suc n)
            limit
            p
            qs
            b
            w in
        ((process_batch_items ask reloading answering id owner fuel limit initial w').0 ≡ w')
        × (shelf.state ≡ w.state)
        × (c : Batch A) × (end ≡ returned c)
        × (c.status ≡ cancelled)
        × (c.results ≡ b.results)
  process_batch_items-cancel_batch reloading answering fuel n limit p qs initial b w st going
        further under =
      let x = cancelled_batch b in
      let marked : (cancel_batch id owner w).0 ≡ shelf_with x w.state w.rows =
        cancel_batch-rows id owner b w st ∙ rw going refl in
      let st' = (store-IsStored id owner b x w w.state st st.key st.owned).1 in
      let ended =
        process_loop-cancelled (λ v. (cancel_batch id owner v).0) answering n limit p qs b x w
          further under
          (ap (λ (v : Shelf S A). load batches id owner v.rows) marked
            ∙ stored-load id owner x (shelf_with x w.state w.rows) st')
          refl in
      (
        cancelled_stays reloading answering fuel limit initial b w st,
        ended.0 ∙ ap (λ (v : Shelf S A). v.state) marked,
        ended.1,
        ended.2,
        ended.3,
        ended.4,
      )

  -- A cancellation that arrives while a question is answered is lost, even when one arrives at
  -- every question: the batch is processed as if nobody had cancelled it.
  pub process_batch_items-cancelled_meanwhile :
      (fuel : ℕ) (initial : Option (Batch A)) (todo : List Str) (b : Batch A) (w : Shelf S A)
      → IsWaiting id owner todo b w
      → length todo < fuel
      → process_batch_items ask
          (λ v. v)
          (λ v. (cancel_batch id owner v).0)
          id
          owner
          fuel
          none
          initial
          w
        ≡ process_batch_items ask (λ v. v) (λ v. v) id owner fuel none initial w
  process_batch_items-cancelled_meanwhile fuel initial todo b w h enough =
      quiet_items ask id owner (λ v. (cancel_batch id owner v).0) fuel initial todo b w
        (cancel_batch-IsHarmless id owner) h enough
      ∙ sym (
          quiet_items ask id owner (λ v. v) fuel initial todo b w (idle-IsHarmless id owner) h
            enough)
