-- ===== src/Lightrag/Evidence.antt =====
-- The evidence for an answer over several workspaces of adapters.py: each answer filtered, then merged.
use graphrag_agent.Base.{
  ℕ, ◌≡◌, ◌≤◌, ◌<◌, refl, ap, ◌∙◌, true, some, List, [], ◌∷◌, length, map, arith, All, inl, inr,
  Bool-cases, &&-eq-true,
}
use graphrag_agent.Base.Text.{Str, nonempty, or_else-nonempty, elem}
use graphrag_agent.Lightrag.Context.{
  Chunk, Reference, Source, QueryData, Limits, nothing_merged, scope_of, merged_data, doc_of,
  kept_chunks, is_chunk_allowed, strictly_filter_query_data, merge_query_contexts,
}
use graphrag_agent.Lightrag.Merging.{characters, IsMerged, IsScoped, merge_loop-IsMerged}

-- Evidence within limits, of allowed documents.
pub record IsEvidence (allowed : List Str) (l : Limits) (d : QueryData) : Type 0 where
  pub few : length d.chunks ≤ l.max_chunks
  pub short : characters d.chunks ≤ l.max_chars
  pub owned : All (λ (c : Chunk). elem c.doc_id allowed ≡ true) d.chunks
  pub referenced : All (λ (r : Reference). elem r.doc_id allowed ≡ true) d.references

module _ (parse : Str → Source) (digest : Str → Str) (allowed : List Str) where
  abbrev IsOwn : Str → Type 0
  IsOwn doc = elem doc allowed ≡ true

  kept_again :
      (c : Chunk)
      → is_chunk_allowed (some allowed) (doc_of parse digest c) ≡ true
      → IsOwn (doc_of parse digest (record c { doc_id = doc_of parse digest c }))
  kept_again c h =
      let doc = doc_of parse digest c in
      let (named, own) = &&-eq-true (nonempty doc) (elem doc allowed) h in
      ap (λ x. elem x allowed) (or_else-nonempty doc _ named) ∙ own

  kept-IsScoped :
      (chunks : List Chunk)
      → All (λ c. IsOwn (doc_of parse digest c)) (kept_chunks parse digest (some allowed) chunks)
  kept-IsScoped [] = tt
  kept-IsScoped (c ∷ chunks) =
      elim (Bool-cases (is_chunk_allowed (some allowed) (doc_of parse digest c))) [
        | inl e ↦ rw e (kept_again c e, kept-IsScoped chunks)
        | inr e ↦ rw e (kept-IsScoped chunks)
      ]

  filtered-IsScoped :
      (l : Limits) (answers : List QueryData)
      → All
          (IsScoped IsOwn parse digest l)
          (map scope_of (map (strictly_filter_query_data parse digest (some allowed)) answers))
  filtered-IsScoped l [] = tt
  filtered-IsScoped l (d ∷ answers) = (kept-IsScoped d.chunks, filtered-IsScoped l answers)

  -- Merging the filtered answers of any workspaces ends, for more fuel than chunks are admitted, in
  -- evidence that has at most so many chunks and characters as the limits say, and whose chunks and
  -- references are all of allowed documents.
  pub merge_query_contexts-IsEvidence :
      (fuel : ℕ) (l : Limits) (answers : List QueryData)
      → l.max_chunks < fuel
      → (d : QueryData) × (merge_query_contexts parse digest fuel l
            (map (strictly_filter_query_data parse digest (some allowed)) answers)
          ≡ some d)
        × IsEvidence allowed l d
  merge_query_contexts-IsEvidence fuel l answers enough =
      let scopes =
        map scope_of (map (strictly_filter_query_data parse digest (some allowed)) answers) in
      let begin : IsMerged IsOwn l nothing_merged = record {
        few = omega arith;
        short = omega arith;
        counted = refl;
        different = tt;
        keyed = refl;
        owned = tt;
        referenced = tt;
      } in
      let (m, ends, h) =
        merge_loop-IsMerged IsOwn parse digest l fuel scopes nothing_merged begin
          (filtered-IsScoped l answers) (omega (arith, enough)) in
      (
        record { chunks = m.chunks; references = m.references },
        ap merged_data ends,
        record {
          few = h.few;
          short = omega (arith, h.counted, h.short);
          owned = h.owned;
          referenced = h.referenced;
        },
      )
