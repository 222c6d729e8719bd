-- ===== src/Qa/Progress.antt =====
-- What processing a batch of qa_service.py amounts to while nobody interferes: its questions are
-- answered in their order.
use graphrag_agent.Base.{
  suc, ◌+◌, ◌≡◌, refl, sym, ap, ◌∙◌, true, Option, none, some, List, [], ◌∷◌, ◌++◌, length, arith,
}
use graphrag_agent.Base.Text.{Str, codes, str_eq_refl, nonempty, or_else, or_else-nonempty}
use graphrag_agent.Application.Rows.{fetch, store, save, load, owner_id}
use graphrag_agent.Application.Isolation.{fetch-store, save-store}
use graphrag_agent.Qa.Batch.{
  running, Batch, Result, answered, refused, QueryOptions, batches, options_of, with_result, Shelf,
  append_batch_result,
}

owned_again :
    {A : Type 0} (owner : Str) (b : Batch A)
    → b.owner_id ≡ owner
    → record b { owner_id = owner } ≡ b
owned_again owner b h = ap (λ o. record b { owner_id = o }) (sym h)

module _ {S A : Type 0} where
  -- The batch is stored under its id for its owner.
  pub record IsStored (id owner : Str) (b : Batch A) (w : Shelf S A) : Type 0 where
    pub row : fetch batches id w.rows ≡ some b
    pub key : b.batch_id ≡ id
    pub owned : b.owner_id ≡ owner
    pub named : nonempty owner ≡ true

  pub stored-load :
      (id owner : Str) (b : Batch A) (w : Shelf S A)
      → IsStored id owner b w
      → load batches id owner w.rows ≡ some b
  unfolding load
  stored-load id owner b w st =
      rw
        (
          load,
          st.row,
          st.owned,
          or_else-nonempty owner (codes "default") st.named,
          str_eq_refl owner,
        )
        refl

  -- A new version of a stored batch takes its place.
  pub store-IsStored :
      (id owner : Str) (b c : Batch A) (w : Shelf S A) (s : S)
      → IsStored id owner b w
      → c.batch_id ≡ id
      → c.owner_id ≡ owner
      → (save batches c w.rows ≡ store batches c w.rows)
        × IsStored id owner c (record { rows = store batches c w.rows; state = s })
  unfolding save
  store-IsStored id owner b c w s st key owned =
      let kept : (o : Str) → o ≡ owner → or_else o (codes "default") ≡ owner = λ o h.
        ap (λ x. or_else x (codes "default")) h
        ∙ or_else-nonempty owner (codes "default") st.named in
      (
        save-store batches c b w.rows (ap (λ i. fetch batches i w.rows) key ∙ st.row)
            (owned_again (owner_id batches c) c (owned ∙ sym (kept c.owner_id owned)))
            (kept b.owner_id st.owned ∙ sym owned),
        record {
          row = fetch-store batches c w.rows id ∙ rw (key, str_eq_refl id) refl;
          key = key;
          owned = owned;
          named = st.named;
        },
      )

module _ {A : Type 0} where
  -- What an answer leaves as it is.
  pub record IsKept (b b' : Batch A) : Type 0 where
    pub key : b'.batch_id ≡ b.batch_id
    pub owned : b'.owner_id ≡ b.owner_id
    pub requested : b'.cancel_requested ≡ b.cancel_requested
    pub index : b'.next_index ≡ b.next_index
    pub same_options : (owner : Str) → options_of owner b' ≡ options_of owner b
    pub counted : b'.completed + b'.failed ≡ suc (b.completed + b.failed)
    pub asked : b'.questions ≡ b.questions
    pub expected : b'.total ≡ b.total

  with_result-IsKept : (q : Str) (r : Option A) (b : Batch A) → IsKept b (with_result q r b)
  with_result-IsKept q none b = record {
    key = refl;
    owned = refl;
    requested = refl;
    index = refl;
    same_options = λ owner. refl;
    counted = omega arith;
    asked = refl;
    expected = refl;
  }
  with_result-IsKept q (some a) b = record {
    key = refl;
    owned = refl;
    requested = refl;
    index = refl;
    same_options = λ owner. refl;
    counted = omega arith;
    asked = refl;
    expected = refl;
  }

  abbrev pub result_of : Str → Option A → Result A
  result_of q none = refused q
  result_of q (some a) = answered a

  results-with_result :
      (q : Str) (r : Option A) (b : Batch A)
      → (with_result q r b).results ≡ b.results ++ result_of q r ∷ []
  results-with_result q none b = refl
  results-with_result q (some a) b = refl

module _ {S A : Type 0} (ask : QueryOptions → Str → S → S × Option A) (owner : Str) where
  -- The batch with one more question answered.
  unfoldable pub answer_one : Str → S × Batch A → S × Batch A
  unfolding append_batch_result
  answer_one q (s, b) =
      let (s', b') = append_batch_result ask owner q b s in
      (s', record b' { next_index = b'.next_index + 1; status = running })

  unfoldable pub advance : List Str → S × Batch A → S × Batch A
  unfolding answer_one
  advance [] x = x
  advance (q ∷ qs) x = advance qs (answer_one q x)

  -- The answers to a list of questions, each after the other: what a batch is meant to give.
  unfoldable pub answers : QueryOptions → List Str → S → S × List (Result A)
  answers options [] s = (s, [])
  answers options (q ∷ qs) s =
      let (s', r) = ask options q s in
      let (s'', rest) = answers options qs s' in (s'', result_of q r ∷ rest)

  pub answer_one-IsKept :
      (q : Str) (s : S) (b : Batch A)
      → let b' = (answer_one q (s, b)).1 in
        (b'.batch_id ≡ b.batch_id)
        × (b'.owner_id ≡ b.owner_id)
        × (b'.cancel_requested ≡ b.cancel_requested)
        × (b'.next_index ≡ b.next_index + 1)
        × (b'.status ≡ running)
        × (options_of owner b' ≡ options_of owner b)
        × (b'.completed + b'.failed ≡ suc (b.completed + b.failed))
        × (b'.questions ≡ b.questions)
        × (b'.total ≡ b.total)
  unfolding answer_one append_batch_result
  answer_one-IsKept q s b =
      let k = with_result-IsKept q (ask (options_of owner b) q s).1 b in
      (
        k.key,
        k.owned,
        k.requested,
        ap (λ n. n + 1) k.index,
        refl,
        k.same_options owner,
        k.counted,
        k.asked,
        k.expected,
      )

  append_nil : {X : Type 0} (xs : List X) → xs ≡ xs ++ []
  append_nil [] = refl
  append_nil (x ∷ xs) = ap (λ (l : List _). x ∷ l) (append_nil xs)

  append_assoc :
      {X : Type 0} (xs : List X) (y : X) (ys : List X) → (xs ++ y ∷ []) ++ ys ≡ xs ++ y ∷ ys
  append_assoc [] y ys = refl
  append_assoc (x ∷ xs) y ys = ap (λ (l : List _). x ∷ l) (append_assoc xs y ys)

  -- Advancing a batch gives it the answers, in their order, and counts them.
  pub advance-answers :
      (qs : List Str) (s : S) (b : Batch A)
      → let (s', b') = advance qs (s, b) in
        let (t, rs) = answers (options_of owner b) qs s in
        (s' ≡ t)
        × (b'.results ≡ b.results ++ rs)
        × (b'.next_index ≡ b.next_index + length qs)
        × (b'.completed + b'.failed ≡ b.completed + b.failed + length qs)
        × (b'.total ≡ b.total)
  unfolding advance answers
  advance-answers [] s b = (refl, append_nil b.results, omega arith, omega arith, refl)
  advance-answers (q ∷ qs) s b =
      let (s', b') = answer_one q (s, b) in
      let k = answer_one-IsKept q s b in
      let rest = advance-answers qs s' b' in
      let r = (ask (options_of owner b) q s).1 in
      (
        rest.0 ∙ ap (λ o. (answers o qs s').0) k.5,
        rest.1
            ∙ rw k.5 refl
            ∙ ap (λ (l : List _). l ++ (answers (options_of owner b) qs s').1)
                (results-with_result q r b)
            ∙ append_assoc b.results (result_of q r) (answers (options_of owner b) qs s').1,
        omega (arith, rest.2, k.3),
        omega (arith, rest.3, k.6),
        rest.4 ∙ k.8,
      )
