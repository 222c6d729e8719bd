-- ===== src/Lightrag/Context.antt =====
-- The answers of several workspaces that LocalLightRAGAdapter of adapters.py filters and merges. A
-- text that is missing is empty, a page that is missing is 0, and none is negative;
-- the other fields pass through the code as they are and are left out, as is the status.
use graphrag_agent.Base.{
  ◌==◌, ℕ, zero, suc, ◌+◌, ◌-◌, Bool, true, false, not, ◌&&◌, ◌||◌, Option, none, some, List, [],
  ◌∷◌, ◌++◌, if◌then◌else◌, length, leb, keep_if, any, take, map,
}
use graphrag_agent.Base.Text.{Str, str_eq, nonempty, or_else, elem, strip}
use graphrag_agent.Base.Dict.{get, put}
use graphrag_agent.Builder.Graph.{decimal}
use graphrag_agent.Lightrag.Instances.{bounded_int}

-- What a chunk names as its page: a number, or something that int() refuses.
pub data PageValue : Type 0 where
  number : ℕ → PageValue
  no_number : PageValue

pub record Chunk : Type 0 where
  pub file_path : Str
  pub source_path : Str
  pub doc_id : Str
  pub page : PageValue
  pub chunk_id : Str
  pub source_id : Str
  pub reference_id : Str
  pub content : Str

pub record Reference : Type 0 where
  pub file_path : Str
  pub source_path : Str
  pub doc_id : Str
  pub page : ℕ
  pub chunk_id : Str
  pub reference_id : Str
  pub content : Str

-- What the code reads of parse_source_path's result.
pub record Source : Type 0 where
  pub doc_id : Str
  pub page : ℕ

pub record QueryData : Type 0 where
  pub chunks : List Chunk
  pub references : List Reference

abbrev is_allowed : Option (List Str) → Str → Bool
is_allowed none doc = true
is_allowed (some allowed) doc = elem doc allowed

abbrev pub is_chunk_allowed : Option (List Str) → Str → Bool
is_chunk_allowed none doc = true
is_chunk_allowed (some allowed) doc = nonempty doc && elem doc allowed

-- A key of what has been seen: the document, the page, the chunk's id and the content's digest.
pub record ChunkKey : Type 0 where
  pub doc_id : Str
  pub page : ℕ
  pub chunk_id : Str
  pub digest : Str

pub record Limits : Type 0 where
  pub max_chunks : ℕ
  pub max_chars : ℕ
  pub include_references : Bool

-- One workspace's chunks that are left, and its references by their ids.
pub record Scope : Type 0 where
  pub queue : List Chunk
  pub by_id : List (Str × Reference)

pub record Merged : Type 0 where
  pub chunks : List Chunk
  pub references : List Reference
  pub seen : List ChunkKey
  pub consumed : ℕ

abbrev pub nothing_merged : Merged
nothing_merged = record { chunks = []; references = []; seen = []; consumed = 0 }

abbrev pub no_reference : Reference
no_reference = record {
  file_path = [];
  source_path = [];
  doc_id = [];
  page = 0;
  chunk_id = [];
  reference_id = [];
  content = [];
}

abbrev reference_or : Option Reference → Reference
reference_or none = no_reference
reference_or (some r) = r

-- The limits, with what int() makes of the two variables.
abbrev pub limits_of : Option ℕ → Option ℕ → Bool → Limits
limits_of chunks chars include_references = record {
  max_chunks = bounded_int chunks 20 1 100;
  max_chars = bounded_int chars 60000 1000 500000;
  include_references = include_references;
}

abbrev pub key_eq : ChunkKey → ChunkKey → Bool
key_eq a b =
    str_eq a.doc_id b.doc_id
    && (a.page == b.page && (str_eq a.chunk_id b.chunk_id && str_eq a.digest b.digest))

abbrev page_or : ℕ → ℕ → ℕ
page_or zero other = other
page_or (suc n) other = suc n

-- int(value or other), or 0 where that raises
abbrev page_number : PageValue → ℕ → ℕ
page_number (number n) other = page_or n other
page_number no_number other = 0

abbrev by_ids : List Reference → List (Str × Reference) → List (Str × Reference)
by_ids [] d = d
by_ids (r ∷ rs) d = by_ids rs (put r.reference_id r d)

abbrev pub scope_of : QueryData → Scope
scope_of answer = record { queue = answer.chunks; by_id = by_ids answer.references [] }

abbrev pub is_full : Limits → Merged → Bool
is_full l m = leb l.max_chunks (length m.chunks) || leb l.max_chars m.consumed

abbrev pub merged_data : Option Merged → Option QueryData
merged_data none = none
merged_data (some m) = some (record { chunks = m.chunks; references = m.references })

-- `parse` is parse_source_path, and `digest` the first digits of SHA-256.
module _ (parse : Str → Source) (digest : Str → Str) where
  abbrev pub doc_of : Chunk → Str
  doc_of c = or_else c.doc_id (parse (or_else c.file_path c.source_path)).doc_id

  abbrev reference_doc : Reference → Str
  reference_doc r = or_else r.doc_id (parse (or_else r.file_path r.source_path)).doc_id

  abbrev pub kept_chunks : Option (List Str) → List Chunk → List Chunk
  kept_chunks allowed chunks =
      map (λ (c : Chunk). record c { doc_id = doc_of c })
        (keep_if (λ c. is_chunk_allowed allowed (doc_of c)) chunks)

  abbrev pub is_reference_kept : Option (List Str) → List Chunk → Reference → Bool
  is_reference_kept allowed kept r =
      let ids = keep_if nonempty (map (λ (c : Chunk). c.reference_id) kept) in
      is_allowed allowed (reference_doc r) && (leb (length ids) 0 || elem r.reference_id ids)

  -- `_strictly_filter_query_data`, with the data of a malformed answer as empty lists
  abbrev pub strictly_filter_query_data : Option (List Str) → QueryData → QueryData
  strictly_filter_query_data allowed answer =
      let kept = kept_chunks allowed answer.chunks in
      record {
        chunks = kept;
        references =
            map (λ (r : Reference). record r { doc_id = reference_doc r })
              (keep_if (is_reference_kept allowed kept) answer.references);
      }

  abbrev pub page_of : Chunk → ℕ
  page_of c = page_number c.page (parse (or_else c.file_path c.source_path)).page

  abbrev chunk_id_of : Chunk → Str
  chunk_id_of c = or_else c.chunk_id (or_else c.source_id c.reference_id)

  abbrev pub key_of : Chunk → ChunkKey
  key_of c = record {
    doc_id = doc_of c;
    page = page_of c;
    chunk_id = chunk_id_of c;
    digest = digest (strip c.content);
  }

  abbrev pub with_reference :
      Limits → List (Str × Reference) → Chunk → Str → Chunk → List Reference → List Reference
  with_reference l by_id old id c references =
      let r = reference_or (get old.reference_id by_id) in
      let next : Reference = record {
        file_path =
            or_else old.file_path (or_else old.source_path (or_else r.file_path r.source_path));
        source_path = r.source_path;
        doc_id = c.doc_id;
        page = page_number c.page 0;
        chunk_id = or_else (chunk_id_of old) id;
        reference_id = id;
        content = c.content;
      } in
      if l.include_references then references ++ next ∷ [] else references

  -- A new chunk with content, while characters remain.
  abbrev pub add_chunk : Limits → List (Str × Reference) → Chunk → Merged → Merged
  add_chunk l by_id c m =
      let id = decimal (length m.chunks + 1) in
      let text = take (l.max_chars - m.consumed) (strip c.content) in
      let next = record c {
        content = text;
        doc_id = doc_of c;
        page = number (page_of c);
        reference_id = id;
      } in
      record {
        chunks = m.chunks ++ next ∷ [];
        references = with_reference l by_id c id next m.references;
        seen = key_of c ∷ m.seen;
        consumed = m.consumed + length text;
      }

  -- The inner loop on one workspace: what is left of its chunks, and whether one was taken.
  unfoldable pub take_next :
      Limits → List (Str × Reference) → List Chunk → Merged → List Chunk × (Merged × Bool)
  take_next l by_id [] m = ([], (m, false))
  take_next l by_id (c ∷ queue) m =
      let skipping = take_next l by_id queue m in
      if not (nonempty (strip c.content)) || any (key_eq (key_of c)) m.seen
      then skipping
      else if leb l.max_chars m.consumed
      then (queue, (m, false))
      else (queue, (add_chunk l by_id c m, true))

  -- One turn over the workspaces.
  unfoldable pub turn : Limits → List Scope → Merged → List Scope × (Merged × Bool)
  unfolding take_next
  turn l [] m = ([], (m, false))
  turn l (s ∷ scopes) m =
      let (queue, taken) = take_next l s.by_id s.queue m in
      let s' = record s { queue = queue } in
      let (scopes', next) = turn l scopes taken.0 in
      if is_full l taken.0
      then (s' ∷ scopes, taken)
      else (s' ∷ scopes', (next.0, taken.1 || next.1))

  -- The outer loop, on fuel.
  unfoldable pub merge_loop : ℕ → Limits → List Scope → Merged → Option Merged
  unfolding turn
  merge_loop zero l scopes m = none
  merge_loop (suc n) l scopes m =
      let (scopes', next) = turn l scopes m in
      let further = merge_loop n l scopes' next.0 in
      if is_full l m then some m else if next.1 then further else some next.0

  -- `_merge_query_contexts`
  abbrev pub merge_query_contexts : ℕ → Limits → List QueryData → Option QueryData
  merge_query_contexts fuel l contexts =
      merged_data (merge_loop fuel l (map scope_of contexts) nothing_merged)
