-- ===== src/Qa/Polling.antt =====
-- Polling a batch of qa_service.py while nobody interferes: each poll answers one question.
use graphrag_agent.Base.{
  ℕ, zero, suc, ◌<◌, ◌≡◌, refl, ap, ◌∙◌, true, false, Option, none, some, List, [], ◌∷◌, length,
  leb, arith,
}
use graphrag_agent.Base.Text.{Str}
use graphrag_agent.Application.Rows.{store}
use graphrag_agent.Qa.Batch.{
  done, Batch, QueryOptions, is_open_batch, with_batch_status, Shelf, process_loop, poll_batch,
  batches, poll_found,
}
use graphrag_agent.Qa.Progress.{IsStored, stored-load, store-IsStored, answer_one-IsKept, advance}
use graphrag_agent.Qa.Rounds.{
  IsLive, shelf_with, next_of, quiet_round, loop_over, loop_reached, loop_went_on, idle-IsHarmless,
}
use graphrag_agent.Qa.Completion.{
  IsAt, IsAt-there, IsAt-next, shelf_again, stored_save, next-IsStored, shelf_after_again,
  shelf_after,
}
use graphrag_agent.Qa.Waiting.{started, IsWaiting, started-IsLive, quiet_items_of}

module _ {S A : Type 0} (ask : QueryOptions → Str → S → S × Option A) (id owner : Str) where
  -- A poll answers one question, and closes the batch after the last.
  abbrev pub closed_after : List Str → Batch A → Batch A
  closed_after [] b = with_batch_status done b
  closed_after (q ∷ todo) b = b

  closed_after-key : (todo : List Str) (b : Batch A) → (closed_after todo b).batch_id ≡ b.batch_id
  closed_after-key [] b = refl
  closed_after-key (q ∷ todo) b = refl

  closed_shelf :
      (todo : List Str) (b : Batch A) (s : S) (rows : List (Batch A))
      → (elim todo [
        | [] ↦ shelf_with (with_batch_status done b) s (store batches b rows)
        | q ∷ qs ↦ shelf_with b s rows
      ])
        ≡ shelf_with (closed_after todo b) s rows
  closed_shelf [] b s rows = shelf_again b (with_batch_status done b) s s rows refl
  closed_shelf (q ∷ todo) b s rows = refl

  closed_loop :
      (n p : ℕ) (todo qs : List Str) (b : Batch A) (w : Shelf S A)
      → IsStored id owner b w
      → IsAt qs todo b.next_index
      → (process_loop ask (λ v. v) (λ v. v) id owner (suc n) (some 1) (suc p) qs b w).0
        ≡ (elim todo [ [] ↦ shelf_with (with_batch_status done b) w.state w.rows | q ∷ qs ↦ w ])
  closed_loop n p [] qs b w st at =
      let over : leb (length qs) b.next_index ≡ true = ground (arith, at.size) in
      ap (λ v. v.0) (loop_over ask id owner (λ v. v) (λ v. v) n (some 1) (suc p) qs b w over)
      ∙ stored_save id owner b (with_batch_status done b) w st st.key st.owned
  closed_loop n p (q ∷ todo) qs b w st at =
      let further : leb (length qs) b.next_index ≡ false = ground (arith, at.size) in
      ap (λ v. v.0)
        (loop_reached ask id owner (λ v. v) (λ v. v) n (some 1) (suc p) qs b w further
          (ground arith))

  poll_loop :
      (q : Str) (todo qs : List Str) (b : Batch A) (w : Shelf S A)
      → IsStored id owner b w
      → IsLive b
      → IsAt qs (q ∷ todo) b.next_index
      → let (s', b') = next_of ask id owner q b w in
        (process_loop ask (λ v. v) (λ v. v) id owner 2 (some 1) 0 qs b w).0
        ≡ shelf_with (closed_after todo b') s' w.rows
  poll_loop q todo qs b w st live at =
      let further : leb (length qs) b.next_index ≡ false = ground (arith, at.size) in
      let (s', b') = next_of ask id owner q b w in
      let k = answer_one-IsKept ask owner q w.state b in
      ap (λ v. v.0)
        (loop_went_on ask id owner (λ v. v) (λ v. v) 1 (some 1) 0 qs b b' w
          (shelf_with b' s' w.rows) further (ground arith)
          (quiet_round ask id owner (λ v. v) qs q b w (idle-IsHarmless id owner) st live
            (IsAt-there qs q todo b.next_index at)))
      ∙ closed_loop 0 0 todo qs b' (shelf_with b' s' w.rows) (next-IsStored ask id owner q b w st)
          (IsAt-next qs q todo b.next_index b'.next_index at k.3)
      ∙ closed_shelf todo b' s' w.rows

  pub next-IsWaiting :
      (q r : Str) (todo : List Str) (b : Batch A) (w : Shelf S A)
      → IsWaiting id owner (q ∷ r ∷ todo) b w
      → let (s', b') = next_of ask id owner q (started b) w in
        IsWaiting id owner (r ∷ todo) b' (shelf_with b' s' w.rows)
  next-IsWaiting q r todo b w h =
      let k = answer_one-IsKept ask owner q w.state (started b) in
      let (s', b') = next_of ask id owner q (started b) w in
      record {
        stored =
            (store-IsStored id owner b b' w s' h.stored (k.0 ∙ h.stored.key)
              (k.1 ∙ h.stored.owned)).1;
        unfinished = ap is_open_batch k.4;
        unrequested = k.2 ∙ h.unrequested;
        at = rw k.7 (IsAt-next b.questions q (r ∷ todo) b.next_index b'.next_index h.at k.3);
        asked = rw k.7 h.asked;
      }

  -- A poll answers the next question, and closes the batch after the last.
  pub quiet_poll :
      (q : Str) (todo : List Str) (b : Batch A) (w : Shelf S A)
      → IsWaiting id owner (q ∷ todo) b w
      → let (s', b') = next_of ask id owner q (started b) w in
        poll_batch ask id owner w ≡ shelf_with (closed_after todo b') s' w.rows
  unfolding poll_batch
  quiet_poll q todo b w h =
      let st = h.stored in
      let (s', b') = next_of ask id owner q (started b) w in
      ap (λ (o : Option (Batch A)). poll_found ask id owner o w) (stored-load id owner b w st)
      ∙ rw h.unfinished refl
      ∙ ap (λ v. v.0) (quiet_items_of ask id owner (λ v. v) 2 (some 1) none (q ∷ todo) b w h)
      ∙ poll_loop q todo b.questions (started b) (shelf_with (started b) w.state w.rows)
          (store-IsStored id owner b (started b) w w.state st st.key st.owned).1
          (started-IsLive ask id owner b h.unrequested) h.at
      ∙ shelf_again (started b) (closed_after todo b') w.state s' w.rows
          (closed_after-key todo b' ∙ (answer_one-IsKept ask owner q w.state (started b)).0)

  -- As many polls as questions are left.
  unfoldable pub polls : ℕ → Shelf S A → Shelf S A
  unfolding poll_batch
  polls zero w = w
  polls (suc n) w = polls n (poll_batch ask id owner w)

  -- They answer all of them.
  quiet_polls_from :
      (q : Str) (todo : List Str) (b : Batch A) (w : Shelf S A)
      → IsWaiting id owner (q ∷ todo) b w
      → polls (suc (length todo)) w ≡ shelf_after ask id owner (q ∷ todo) (started b) w
  unfolding polls advance
  quiet_polls_from q [] b w h = quiet_poll q [] b w h
  quiet_polls_from q (r ∷ todo) b w h =
      let (s', b') = next_of ask id owner q (started b) w in
      ap (polls (suc (length todo))) (quiet_poll q (r ∷ todo) b w h)
      ∙ quiet_polls_from r todo b' (shelf_with b' s' w.rows) (next-IsWaiting q r todo b w h)
      ∙ shelf_after_again ask id owner (r ∷ todo) b' s' w.rows

  pub quiet_polls :
      (todo : List Str) (b : Batch A) (w : Shelf S A)
      → 0 < length todo
      → IsWaiting id owner todo b w
      → polls (length todo) w ≡ shelf_after ask id owner todo (started b) w
  quiet_polls [] b w left h = ground (arith, left)
  quiet_polls (q ∷ todo) b w left h = quiet_polls_from q todo b w h
