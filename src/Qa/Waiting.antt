-- ===== src/Qa/Waiting.antt =====
-- A batch of qa_service.py that waits for its next question, and what a thread makes of it while
-- nobody interferes.
use graphrag_agent.Base.{
  ℕ, ◌<◌, ◌≡◌, refl, ap, ◌∙◌, Bool, true, false, Option, none, List, if◌then◌else◌, length, leb,
  arith,
}
use graphrag_agent.Base.Text.{Str}
use graphrag_agent.Qa.Batch.{
  running, BatchStatus, Batch, QueryOptions, is_over, is_open_batch, with_batch_status, Shelf,
  returned, process_loop, process_batch_items, process_found, latest_or,
}
use graphrag_agent.Qa.Progress.{IsStored, stored-load, store-IsStored}
use graphrag_agent.Qa.Rounds.{IsLive, shelf_with, IsHarmless}
use graphrag_agent.Qa.Completion.{
  IsAt, stored_save, shelf_after_again, completed_with, shelf_after, quiet_loop,
}

abbrev pub started : {A : Type 0} → Batch A → Batch A
started b = with_batch_status running b

no_guard :
    {X : Type 0} (a b c : Bool) (x y z v : X)
    → a ≡ false
    → b ≡ false
    → c ≡ false
    → (if a then x else if b then y else if c then z else v) ≡ v
no_guard a b c x y z v ha hb hc = rw (ha, hb, hc) refl

module _ {S A : Type 0} where
  -- A stored batch that waits for its next question.
  pub record IsWaiting (id owner : Str) (todo : List Str) (b : Batch A) (w : Shelf S A)
      : Type 0 where
    pub stored : IsStored id owner b w
    pub unfinished : is_open_batch b.status ≡ true
    pub unrequested : b.cancel_requested ≡ false
    pub at : IsAt b.questions todo b.next_index
    pub asked : 0 < length b.questions

module _ {S A : Type 0} (ask : QueryOptions → Str → S → S × Option A) (id owner : Str) where
  open_over : (s : BatchStatus) → is_open_batch s ≡ true → is_over s ≡ false
  open_over s h = ground (arith, h)

  pub started-IsLive : (b : Batch A) → b.cancel_requested ≡ false → IsLive (started b)
  started-IsLive b h = record { unrequested = h; uncancelled = refl }

  pub quiet_items_of :
      (answering : Shelf S A → Shelf S A) (fuel : ℕ) (limit : Option ℕ) (initial : Option (Batch A))
      (todo : List Str) (b : Batch A) (w : Shelf S A)
      → IsWaiting id owner todo b w
      → process_batch_items ask (λ v. v) answering id owner fuel limit initial w
        ≡ process_loop ask
            (λ v. v)
            answering
            id
            owner
            fuel
            limit
            0
            b.questions
            (started b)
            (shelf_with (started b) w.state w.rows)
  unfolding process_batch_items
  quiet_items_of answering fuel limit initial todo b w h =
      let some_left : leb (length b.questions) 0 ≡ false = ground (arith, h.asked) in
      ap
        (λ (o : Option (Batch A)).
          process_found ask (λ v. v) answering id owner fuel limit (latest_or o initial) w)
        (stored-load id owner b w h.stored)
      ∙ no_guard (is_over b.status) b.cancel_requested (leb (length b.questions) 0) _ _ _ _
          (open_over b.status h.unfinished) h.unrequested some_left
      ∙ (ap (process_loop ask (λ v. v) answering id owner fuel limit 0 b.questions (started b))
          (stored_save id owner b (started b) w h.stored h.stored.key h.stored.owned))

  -- A thread answers all that is left.
  pub quiet_items :
      (answering : Shelf S A → Shelf S A) (fuel : ℕ) (initial : Option (Batch A)) (todo : List Str)
      (b : Batch A) (w : Shelf S A)
      → IsHarmless id owner answering
      → IsWaiting id owner todo b w
      → length todo < fuel
      → process_batch_items ask (λ v. v) answering id owner fuel none initial w ≡ (
        shelf_after ask id owner todo (started b) w,
        returned (completed_with ask id owner todo (started b) w.state),
      )
  quiet_items answering fuel initial todo b w harmless h enough =
      let st = h.stored in
      quiet_items_of answering fuel none initial todo b w h
      ∙ quiet_loop ask id owner answering todo b.questions fuel 0 (started b)
          (shelf_with (started b) w.state w.rows) harmless
          (store-IsStored id owner b (started b) w w.state st st.key st.owned).1
          (started-IsLive b h.unrequested) h.at enough
      ∙ ap (λ (v : Shelf S A). (v, returned (completed_with ask id owner todo (started b) w.state)))
          (shelf_after_again ask id owner todo (started b) w.state w.rows)
