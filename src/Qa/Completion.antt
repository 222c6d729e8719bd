-- ===== src/Qa/Completion.antt =====
-- The loop of a batch of qa_service.py while nobody interferes: it answers what is left, in order,
-- and closes the batch.
use graphrag_agent.Base.{
  ℕ, zero, suc, ◌+◌, ◌<◌, ◌≡◌, refl, ap, ◌∙◌, true, false, Option, none, some, List, [], ◌∷◌,
  length, get_elem?, leb, arith,
}
use graphrag_agent.Base.Text.{Str, str_eq_refl}
use graphrag_agent.Application.Rows.{store}
use graphrag_agent.Application.Isolation.{store-store}
use graphrag_agent.Qa.Batch.{
  done, Batch, QueryOptions, batches, with_batch_status, Shelf, returned, process_loop, save_batch,
}
use graphrag_agent.Qa.Progress.{IsStored, store-IsStored, answer_one, answer_one-IsKept, advance}
use graphrag_agent.Qa.Rounds.{IsLive, shelf_with, next_of, quiet_round, IsHarmless}

-- From an index on, a list of questions goes on with these.
pub record IsAt (qs todo : List Str) (i : ℕ) : Type 0 where
  pub there : (j : ℕ) → get_elem? qs (i + j) ≡ get_elem? todo j
  pub size : length qs ≡ i + length todo

pub IsAt-there :
    (qs : List Str) (q : Str) (todo : List Str) (i : ℕ)
    → IsAt qs (q ∷ todo) i
    → get_elem? qs i ≡ some q
IsAt-there qs q todo i at = ap (get_elem? qs) (omega arith) ∙ at.there 0

pub IsAt-next :
    (qs : List Str) (q : Str) (todo : List Str) (i k : ℕ)
    → IsAt qs (q ∷ todo) i
    → k ≡ i + 1
    → IsAt qs todo k
IsAt-next qs q todo i k at next = record {
  there = λ j. ap (get_elem? qs) (omega (arith, next)) ∙ at.there (suc j);
  size = omega (arith, at.size, next);
}

module _ {S A : Type 0} where
  -- A new version of what has been stored under an id is stored instead.
  pub shelf_again :
      (b c : Batch A) (s t : S) (rows : List (Batch A))
      → c.batch_id ≡ b.batch_id
      → shelf_with c t (store batches b rows) ≡ shelf_with c t rows
  shelf_again b c s t rows h =
      ap (λ (r : List (Batch A)). record { rows = r; state = t })
        (store-store batches b c rows (rw h (str_eq_refl b.batch_id)))

  pub stored_save :
      (id owner : Str) (b c : Batch A) (w : Shelf S A)
      → IsStored id owner b w
      → c.batch_id ≡ id
      → c.owner_id ≡ owner
      → save_batch c w ≡ shelf_with c w.state w.rows
  stored_save id owner b c w st key owned =
      ap (λ (r : List (Batch A)). record { rows = r; state = w.state })
        (store-IsStored id owner b c w w.state st key owned).0

module _ {S A : Type 0} (ask : QueryOptions → Str → S → S × Option A) (id owner : Str) where
  pub advance-key :
      (qs : List Str) (s : S) (b : Batch A) → (advance ask owner qs (s, b)).1.batch_id ≡ b.batch_id
  unfolding advance
  advance-key [] s b = refl
  advance-key (q ∷ qs) s b =
      let (s', b') = answer_one ask owner q (s, b) in
      advance-key qs s' b' ∙ (answer_one-IsKept ask owner q s b).0

  pub advance-owner :
      (qs : List Str) (s : S) (b : Batch A) → (advance ask owner qs (s, b)).1.owner_id ≡ b.owner_id
  unfolding advance
  advance-owner [] s b = refl
  advance-owner (q ∷ qs) s b =
      let (s', b') = answer_one ask owner q (s, b) in
      advance-owner qs s' b' ∙ (answer_one-IsKept ask owner q s b).1

  pub next-IsStored :
      (q : Str) (b : Batch A) (w : Shelf S A)
      → IsStored id owner b w
      → let (s', b') = next_of ask id owner q b w in IsStored id owner b' (shelf_with b' s' w.rows)
  next-IsStored q b w st =
      let k = answer_one-IsKept ask owner q w.state b in
      (store-IsStored id owner b (next_of ask id owner q b w).1 w (next_of ask id owner q b w).0 st
        (k.0 ∙ st.key) (k.1 ∙ st.owned)).1

  pub next-IsLive :
      (q : Str) (b : Batch A) (w : Shelf S A) → IsLive b → IsLive (next_of ask id owner q b w).1
  unfolding answer_one
  next-IsLive q b w live = record {
    unrequested = (answer_one-IsKept ask owner q w.state b).2 ∙ live.unrequested;
    uncancelled = refl;
  }

  -- How a batch ends that is advanced through the questions that are left.
  abbrev pub completed_with : List Str → Batch A → S → Batch A
  completed_with todo b s = with_batch_status done (advance ask owner todo (s, b)).1

  abbrev pub shelf_after : List Str → Batch A → Shelf S A → Shelf S A
  shelf_after todo b w =
      shelf_with (completed_with todo b w.state) (advance ask owner todo (w.state, b)).0 w.rows

  pub shelf_after_again :
      (todo : List Str) (b : Batch A) (s : S) (rows : List (Batch A))
      → shelf_after todo b (shelf_with b s rows)
        ≡ shelf_after todo b (record { rows = rows; state = s })
  shelf_after_again todo b s rows =
      shelf_again b (completed_with todo b s) s (advance ask owner todo (s, b)).0 rows
        (advance-key todo s b)

  pub quiet_loop :
      (answering : Shelf S A → Shelf S A) (todo qs : List Str) (n p : ℕ) (b : Batch A)
      (w : Shelf S A)
      → IsHarmless id owner answering
      → IsStored id owner b w
      → IsLive b
      → IsAt qs todo b.next_index
      → length todo < n
      → process_loop ask (λ v. v) answering id owner n none p qs b w
        ≡ (shelf_after todo b w, returned (completed_with todo b w.state))
  unfolding process_loop advance
  quiet_loop answering todo qs zero p b w harmless st live at fuel = ground (arith, fuel)
  quiet_loop answering [] qs (suc n) p b w harmless st live at fuel =
      let over : leb (length qs) b.next_index ≡ true = ground (arith, at.size) in
      simp (over) (
        ap (λ (v : Shelf S A). (v, returned (with_batch_status done b)))
          (stored_save id owner b (with_batch_status done b) w st st.key st.owned))
  quiet_loop answering (q ∷ todo) qs (suc n) p b w harmless st live at fuel =
      let further : leb (length qs) b.next_index ≡ false = ground (arith, at.size) in
      let (s', b') = next_of ask id owner q b w in
      let k = answer_one-IsKept ask owner q w.state b in
      simp
        (
          quiet_round ask id owner answering qs q b w harmless st live
              (IsAt-there qs q todo b.next_index at),
          further,
        )
        (quiet_loop answering todo qs n (suc p) b' (shelf_with b' s' w.rows) harmless
            (next-IsStored q b w st) (next-IsLive q b w live)
            (IsAt-next qs q todo b.next_index b'.next_index at k.3) (omega (arith, fuel))
          ∙ ap (λ (v : Shelf S A). (v, returned (completed_with todo b' s')))
              (shelf_after_again todo b' s' w.rows))
