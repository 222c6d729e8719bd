-- ===== src/Lightrag/Examples.antt =====
-- Runs of the cache of instances of adapters.py on small inputs.
use graphrag_agent.Lightrag.Numbering.{AreAccepted, coerce_pages-AreAccepted}
use graphrag_agent.Lightrag.Pages.{
  PageItem, text_item, page_text, mapping_item, coerced, coerce_pages, coerce_loop,
}
use graphrag_agent.Base.Int.{pos, ◌+ℤ◌}
use graphrag_agent.Lightrag.Evidence.{IsEvidence, merge_query_contexts-IsEvidence}
use graphrag_agent.Lightrag.Context.{
  Chunk, Reference, QueryData, Limits, Source, strictly_filter_query_data, merge_query_contexts,
  merge_loop, turn, take_next, number,
}
use graphrag_agent.Base.{ℕ, ◌≡◌, refl, true, false, some, List, [], ◌∷◌, map, arith, Option, none}
use graphrag_agent.Base.Text.{Str, codes, str_eq, strip, elem}
use graphrag_agent.Base.Sort.{sort_by, insert_by}
use graphrag_agent.Base.Dict.{get, put, pop, keys}
use graphrag_agent.Lightrag.Instances.{
  Cache, look_up, with_lock, settle, enter_lease, evict_instances, pick,
}
use graphrag_agent.Lightrag.Sharing.{
  entered, waiting, creating, holding, system, creators, Steps, enter, miss, lock, create, stay,
  after,
}
use graphrag_agent.Lightrag.Reachable.{start, Steps-holding, Steps-creating}

abbrev old_cache : Cache ℕ
old_cache = record {
  instances = (codes "a", 1) ∷ (codes "b", 2) ∷ (codes "c", 3) ∷ [];
  last_used = (codes "a", 50) ∷ (codes "b", 70) ∷ (codes "c", 10) ∷ [];
  active = (codes "a", 1) ∷ [];
  locks = [];
  usage_locks = [];
}

-- The third is stale, and the second goes for the limit; the first is leased.
evict_test : keys (evict_instances [] 100 60 1 old_cache).instances ≡ codes "a" ∷ []
unfolding pick get pop sort_by insert_by str_eq
evict_test = refl

abbrev entered_cache : Cache ℕ
entered_cache = enter_lease 3 (codes "a") start.cache

abbrev missed_cache : Cache ℕ
missed_cache = (look_up 4 (codes "a") entered_cache).0

abbrev locked_cache : Cache ℕ
locked_cache = with_lock (codes "a") true missed_cache

abbrev made_cache : Cache ℕ
made_cache = with_lock (codes "a") false (settle 9 (codes "a") 7 locked_cache).0

to_creating : Steps start (system locked_cache (creating (codes "a") ∷ []))
unfolding get put str_eq
to_creating =
    after start (system entered_cache (entered (codes "a") ∷ [])) _
      (enter 3 (codes "a") start.cache [])
      (after (system entered_cache (entered (codes "a") ∷ []))
        (system missed_cache (waiting (codes "a") ∷ [])) _
        (miss 4 (codes "a") entered_cache [] [] refl)
        (after (system missed_cache (waiting (codes "a") ∷ []))
          (system locked_cache (creating (codes "a") ∷ [])) _
          (lock (codes "a") missed_cache [] [] refl refl)
          (stay (system locked_cache (creating (codes "a") ∷ [])))))

to_holding : Steps start (system made_cache (holding (codes "a") 7 ∷ []))
unfolding get put str_eq
to_holding =
    after start (system entered_cache (entered (codes "a") ∷ [])) _
      (enter 3 (codes "a") start.cache [])
      (after (system entered_cache (entered (codes "a") ∷ []))
        (system missed_cache (waiting (codes "a") ∷ [])) _
        (miss 4 (codes "a") entered_cache [] [] refl)
        (after (system missed_cache (waiting (codes "a") ∷ []))
          (system locked_cache (creating (codes "a") ∷ [])) _
          (lock (codes "a") missed_cache [] [] refl refl)
          (after (system locked_cache (creating (codes "a") ∷ []))
            (system made_cache (holding (codes "a") 7 ∷ [])) _
            (create 9 (codes "a") 7 locked_cache [] [])
            (stay (system made_cache (holding (codes "a") 7 ∷ []))))))

Steps-holding_example :
    (get (codes "a") made_cache.instances ≡ some 7)
    × ((excluded : List Str) (now ttl limit : ℕ)
        → get (codes "a") (evict_instances excluded now ttl limit made_cache).instances ≡ some 7)
Steps-holding_example =
    Steps-holding (system made_cache (holding (codes "a") 7 ∷ [])) to_holding (codes "a") 7 [] []
      refl

Steps-creating_example :
    (creators (codes "a") (system {R = ℕ} locked_cache (creating (codes "a") ∷ [])).workers ≡ 1)
    × ((now : ℕ) (created : ℕ) → (settle now (codes "a") created locked_cache).1 ≡ created)
Steps-creating_example =
    Steps-creating (system locked_cache (creating (codes "a") ∷ [])) to_creating (codes "a") [] []
      refl

abbrev chunk_of : Str → Str → Chunk
chunk_of doc text = record {
  file_path = [];
  source_path = [];
  doc_id = doc;
  page = number 1;
  chunk_id = [];
  source_id = [];
  reference_id = codes "1";
  content = text;
}

abbrev reference_to : Str → Reference
reference_to doc = record {
  file_path = codes "f";
  source_path = [];
  doc_id = doc;
  page = 1;
  chunk_id = [];
  reference_id = codes "1";
  content = [];
}

abbrev two_answers : List QueryData
two_answers =
    record {
      chunks = chunk_of (codes "d1") (codes "one") ∷ chunk_of (codes "d2") (codes "two") ∷ [];
      references = reference_to (codes "d1") ∷ reference_to (codes "d2") ∷ [];
    }
    ∷ record { chunks = chunk_of (codes "d1") (codes "three") ∷ []; references = [] }
    ∷ []

abbrev small : Limits
small = record { max_chunks = 3; max_chars = 5; include_references = true }

abbrev unparsed : Str → Source
unparsed path = record { doc_id = []; page = 0 }

abbrev only_d1 : List Str
only_d1 = codes "d1" ∷ []

abbrev merged_text : Option QueryData → List Str
merged_text none = []
merged_text (some d) = map (λ (c : Chunk). c.content) d.chunks

-- The second document's chunk is left out, and the last chunk is cut.
merge_test :
    merged_text (
      merge_query_contexts unparsed
        (λ s. s)
        4
        small
        (map (strictly_filter_query_data unparsed (λ s. s) (some only_d1)) two_answers))
    ≡ codes "one" ∷ codes "th" ∷ []
unfolding merge_loop turn take_next get put str_eq strip elem
merge_test = refl

merge_query_contexts-IsEvidence_example :
    (d : QueryData) × (merge_query_contexts unparsed
        (λ s. s)
        4
        small
        (map (strictly_filter_query_data unparsed (λ s. s) (some only_d1)) two_answers)
      ≡ some d)
    × IsEvidence only_d1 small d
merge_query_contexts-IsEvidence_example =
    merge_query_contexts-IsEvidence unparsed (λ s. s) only_d1 4 small two_answers (omega arith)

abbrev parsed_pages : List PageItem
parsed_pages =
    text_item (codes " one ")
    ∷ page_text (some (pos 6)) (codes "seven")
    ∷ mapping_item none none none (codes " ")
    ∷ mapping_item (some (pos 2)) none none (codes "two")
    ∷ []

coerce_test :
    coerce_pages parsed_pages
    ≡ coerced (
        record { page = pos 1; content = codes "one" }
        ∷ record { page = pos 7; content = codes "seven" }
        ∷ record { page = pos 2; content = codes "two" }
        ∷ [])
unfolding coerce_loop strip ◌+ℤ◌
coerce_test = refl

coerce_pages-AreAccepted_example : AreAccepted (coerce_pages parsed_pages)
coerce_pages-AreAccepted_example = coerce_pages-AreAccepted parsed_pages
