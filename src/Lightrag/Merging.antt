-- ===== src/Lightrag/Merging.antt =====
-- What the merging of adapters.py keeps to: its limits, one chunk for each key, and allowed documents.
use graphrag_agent.Base.{
  ℕ, zero, suc, ◌+◌, ◌-◌, ◌≤◌, ◌<◌, ◌≡◌, refl, ◌∙◌, Bool, true, false, not, ◌||◌, some, List, [],
  ◌∷◌, ◌++◌, length, leb, any, take, arith, All, All-append, length-append, length-take-le, inl,
  inr, Bool-cases,
}
use graphrag_agent.Base.Text.{Str, nonempty, strip}
use graphrag_agent.Base.Sort.{Unique}
use graphrag_agent.Builder.Graph.{decimal}
use graphrag_agent.Lightrag.Sharing.{one_if}
use graphrag_agent.Lightrag.Context.{
  Chunk, Reference, Source, Limits, Scope, Merged, is_full, key_eq, doc_of, page_of, key_of,
  add_chunk, take_next, turn, merge_loop, with_reference, number,
}

abbrev pub characters : List Chunk → ℕ
characters [] = 0
characters (c ∷ chunks) = length c.content + characters chunks

characters-append :
    (xs : List Chunk) (c : Chunk) → characters (xs ++ c ∷ []) ≡ characters xs + length c.content
characters-append [] c = omega arith
characters-append (x ∷ xs) c = omega (arith, characters-append xs c)

length-snoc {ℓ} : {A : Type ℓ} (xs : List A) (x : A) → length (xs ++ x ∷ []) ≡ length xs + 1
length-snoc xs x = omega (arith, length-append xs (x ∷ []))

grown : (a b : Bool) (x y z : ℕ) → y ≡ x + one_if a → one_if b + y ≤ z → one_if (a || b) + x ≤ z
grown true b x y z h k = omega (arith, h, k)
grown false b x y z h k = ground (arith, h, k)

-- The merged chunks keep to the limits, no two of them have one key, and the documents satisfy `P`.
pub record IsMerged (P : Str → Type 0) (l : Limits) (m : Merged) : Type 0 where
  pub few : length m.chunks ≤ l.max_chunks
  pub short : m.consumed ≤ l.max_chars
  pub counted : characters m.chunks ≡ m.consumed
  pub different : Unique key_eq m.seen
  pub keyed : length m.seen ≡ length m.chunks
  pub owned : All (λ (c : Chunk). P c.doc_id) m.chunks
  pub referenced : All (λ (r : Reference). P r.doc_id) m.references

module _ (P : Str → Type 0) (parse : Str → Source) (digest : Str → Str) (l : Limits) where
  -- The documents of the chunks that may be taken.
  abbrev pub IsScoped : Scope → Type 0
  IsScoped s = All (λ c. P (doc_of parse digest c)) s.queue

  references_kept :
      (by_id : List (Str × Reference)) (old : Chunk) (id : Str) (c : Chunk) (rs : List Reference)
      → P c.doc_id
      → All (λ (r : Reference). P r.doc_id) rs
      → All (λ (r : Reference). P r.doc_id) (with_reference parse digest l by_id old id c rs)
  references_kept by_id old id c rs p h = elim (Bool-cases l.include_references) [
    | inl e ↦ rw e (All-append (λ (r : Reference). P r.doc_id) rs _ h (p, tt))
    | inr e ↦ rw e h
  ]

  add_chunk-IsMerged :
      (by_id : List (Str × Reference)) (c : Chunk) (m : Merged)
      → IsMerged P l m
      → any (key_eq (key_of parse digest c)) m.seen ≡ false
      → length m.chunks < l.max_chunks
      → P (doc_of parse digest c)
      → IsMerged P l (add_chunk parse digest l by_id c m)
  add_chunk-IsMerged by_id c m k fresh room p =
      let text = take (l.max_chars - m.consumed) (strip c.content) in
      let id = decimal (length m.chunks + 1) in
      let next : Chunk = record c {
        content = text;
        doc_id = doc_of parse digest c;
        page = number (page_of parse digest c);
        reference_id = id;
      } in
      let one_more = length-snoc m.chunks next in
      record {
        few = omega (arith, one_more, room);
        short = omega (arith, length-take-le (l.max_chars - m.consumed) (strip c.content), k.short);
        counted = characters-append m.chunks next ∙ omega (arith, k.counted);
        different = (fresh, k.different);
        keyed = omega (arith, one_more, k.keyed);
        owned = All-append (λ (c : Chunk). P c.doc_id) m.chunks (next ∷ []) k.owned (p, tt);
        referenced = references_kept by_id c id next m.references p k.referenced;
      }

  -- Taking from one workspace.
  pub take_next-IsMerged :
      (by_id : List (Str × Reference)) (queue : List Chunk) (m : Merged)
      → IsMerged P l m
      → length m.chunks < l.max_chunks
      → All (λ c. P (doc_of parse digest c)) queue
      → let (queue', taken) = take_next parse digest l by_id queue m in
        (All (λ c. P (doc_of parse digest c)) queue')
        × (IsMerged P l taken.0)
        × (length taken.0.chunks ≡ length m.chunks + one_if taken.1)
  unfolding take_next
  take_next-IsMerged by_id [] m k room h = (tt, k, omega arith)
  take_next-IsMerged by_id (c ∷ queue) m k room h =
      elim (Bool-cases
        (not (nonempty (strip c.content)) || any (key_eq (key_of parse digest c)) m.seen)) [
          | inl e ↦ rw e (take_next-IsMerged by_id queue m k room h.1)
          | inr e ↦ elim (Bool-cases (leb l.max_chars m.consumed)) [
            | inl f ↦ rw (e, f) (h.1, k, omega arith)
            | inr f ↦
                rw (e, f)
                  (
                    h.1,
                    add_chunk-IsMerged by_id c m k (ground (arith, e)) room h.0,
                    length-snoc m.chunks _,
                  )
          ]
        ]

  pub turn-IsMerged :
      (scopes : List Scope) (m : Merged)
      → IsMerged P l m
      → length m.chunks < l.max_chunks
      → All IsScoped scopes
      → let (scopes', next) = turn parse digest l scopes m in
        (All IsScoped scopes')
        × (IsMerged P l next.0)
        × (one_if next.1 + length m.chunks ≤ length next.0.chunks)
  unfolding turn
  turn-IsMerged [] m k room h = (tt, k, omega arith)
  turn-IsMerged (s ∷ scopes) m k room h =
      let (queue, taken) = take_next parse digest l s.by_id s.queue m in
      let first = take_next-IsMerged s.by_id s.queue m k room h.0 in
      elim (Bool-cases (is_full l taken.0)) [
        | inl full ↦ rw full ((first.0, h.1), first.1, omega (arith, first.2))
        | inr below ↦
            let rest = turn-IsMerged scopes taken.0 first.1 (ground (arith, below)) h.1 in
            rw below (
              (first.0, rest.0),
              rest.1,
              grown taken.1 (turn parse digest l scopes taken.0).1.1 (length m.chunks)
                  (length taken.0.chunks) (length (turn parse digest l scopes taken.0).1.0.chunks)
                  first.2 rest.2,
            )
      ]

  -- The loop ends, for more fuel than there is room for chunks.
  pub merge_loop-IsMerged :
      (n : ℕ) (scopes : List Scope) (m : Merged)
      → IsMerged P l m
      → All IsScoped scopes
      → l.max_chunks < n + length m.chunks
      → (end : Merged) × (merge_loop parse digest n l scopes m ≡ some end) × IsMerged P l end
  unfolding merge_loop
  merge_loop-IsMerged zero scopes m k h fuel = absurd (omega (arith, k.few, fuel))
  merge_loop-IsMerged (suc n) scopes m k h fuel =
      let (scopes', next) = turn parse digest l scopes m in
      elim (Bool-cases (is_full l m)) [
        | inl full ↦ (m, rw full refl, k)
        | inr below ↦
            let t = turn-IsMerged scopes m k (ground (arith, below)) h in
            elim (Bool-cases next.1) [
              | inl more ↦
                  let one : one_if next.1 ≡ 1 = rw more refl in
                  let (end, ends, kept) =
                    merge_loop-IsMerged n scopes' next.0 t.1 t.0 (omega (arith, fuel, t.2, one)) in
                  (end, rw (below, more) ends, kept)
              | inr idle ↦ (next.0, rw (below, idle) refl, t.1)
            ]
      ]
