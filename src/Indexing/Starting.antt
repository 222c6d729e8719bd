-- ===== src/Indexing/Starting.antt =====
-- start_indexing of indexing_service.py called again.
use graphrag_agent.Base.{
  ℕ, ◌≡◌, refl, sym, ap, ◌∙◌, Bool, true, false, ◌⊎◌, inl, inr, Option, none, some, List, [], ◌∷◌,
  arith, Bool-cases,
}
use graphrag_agent.Base.Text.{Str, str_eq, str_eq_iff, str_eq_refl}
use graphrag_agent.Documents.Status.{
  Engine, legacy, lightrag, Status, Document, get_document, update_engine_index_status, with_index,
}
use graphrag_agent.Queue.Store.{is_some}
use graphrag_agent.Indexing.Jobs.{Meta, World, is_terminal, load_job_meta}
use graphrag_agent.Indexing.Start.{
  Targets, or_both, Started, no_document, existing, started, enqueue_failed, save_job_meta,
  is_reusable, find_reusable, stable_id, new_meta, mark_index, stored, start_new, or_fresh,
  load_stable, start_indexing,
}

find_old :
    (doc : Str) (t : Targets) (m x : Meta) (jobs : List Meta)
    → find_reusable doc t (x ∷ jobs) ≡ none
    → find_reusable doc t jobs ≡ none × (is_reusable doc t x ≡ false)
unfolding find_reusable
find_old doc t m x jobs h = elim (Bool-cases (is_reusable doc t x)) [
  | inl hit ↦ ground (arith, h, hit)
  | inr miss ↦ ground (arith, h, miss)
]

find_reusable-save :
    (doc : Str) (t : Targets) (m : Meta) (jobs : List Meta)
    → find_reusable doc t jobs ≡ none
    → is_reusable doc t m ≡ true
    → find_reusable doc t (save_job_meta m jobs) ≡ some m
unfolding find_reusable save_job_meta
find_reusable-save doc t m [] h r = rw r refl
find_reusable-save doc t m (x ∷ jobs) h r = elim (Bool-cases (str_eq x.job_id m.job_id)) [
  | inl same ↦ rw (same, r) refl
  | inr other ↦
      let old = find_old doc t m x jobs h in
      rw (other, old.1) (find_reusable-save doc t m jobs old.0 r)
]

load-save : (m : Meta) (jobs : List Meta) → load_job_meta m.job_id (save_job_meta m jobs) ≡ some m
unfolding load_job_meta save_job_meta
load-save m [] = rw (str_eq_refl m.job_id) refl
load-save m (x ∷ jobs) = elim (Bool-cases (str_eq x.job_id m.job_id)) [
  | inl same ↦ rw (same, str_eq_refl m.job_id) refl
  | inr other ↦ rw (other, other) (load-save m jobs)
]

with_index-doc_id :
    (enabled : Bool) (engine : Engine) (status : Status) (job error : Option Str) (pages : Option ℕ)
    (d : Document)
    → (with_index enabled engine status job error pages d).doc_id ≡ d.doc_id
unfolding with_index
with_index-doc_id enabled legacy status job error pages d = refl
with_index-doc_id enabled lightrag status job error pages d = refl

abbrev id_or : Str → Option Document → Str
id_or id none = id
id_or id (some d) = d.doc_id

-- A status change leaves every document where it is.
pub is_some-update :
    (enabled : Bool) (id doc : Str) (engine : Engine) (status : Status) (job error : Option Str)
    (pages : Option ℕ) (documents : List Document)
    → is_some (
        get_document id
          (update_engine_index_status enabled doc engine status job error pages documents))
      ≡ is_some (get_document id documents)
unfolding get_document update_engine_index_status
is_some-update enabled id doc engine status job error pages [] = refl
is_some-update enabled id doc engine status job error pages (d ∷ documents) =
    elim (Bool-cases (str_eq d.doc_id doc)) [
      | inl same ↦
          rw (same, with_index-doc_id enabled engine status job error pages d) (ground arith)
      | inr other ↦
          rw other
            (ground (arith, is_some-update enabled id doc engine status job error pages documents))
    ]

get_document-doc_id :
    (id : Str) (documents : List Document) (d : Document)
    → get_document id documents ≡ some d
    → d.doc_id ≡ id
unfolding get_document
get_document-doc_id id [] d h = ground (arith, h)
get_document-doc_id id (x ∷ documents) d h = elim (Bool-cases (str_eq x.doc_id id)) [
  | inl same ↦
      let first : get_document id (x ∷ documents) ≡ some x = rw same refl in
      ap (id_or id) (sym h ∙ first) ∙ (str_eq_iff x.doc_id id).0 same
  | inr other ↦ get_document-doc_id id documents d (ground (arith, h, other))
]

document-cases : (o : Option Document) → (o ≡ none) ⊎ ((d : Document) × (o ≡ some d))
document-cases none = inl refl
document-cases (some d) = inr (d, refl)

meta-cases : (o : Option Meta) → (o ≡ none) ⊎ ((m : Meta) × (o ≡ some m))
meta-cases none = inl refl
meta-cases (some m) = inr (m, refl)

started_or : Meta → Started → Meta
started_or m no_document = m
started_or m (existing x) = m
started_or m (started x) = x
started_or m enqueue_failed = m

module _ (sha256 : Str → Str) (enabled durable : Bool) where
  is_some-mark :
      (id doc job : Str) (requested : Bool) (engine : Engine) (documents : List Document)
      → is_some
          (get_document id (mark_index sha256 enabled durable doc job requested engine documents))
        ≡ is_some (get_document id documents)
  is_some-mark id doc job false engine documents = refl
  is_some-mark id doc job true engine documents =
      is_some-update enabled id doc engine _ (some job) none none documents

  started_or-start_new :
      (takes : Bool) (job : Str) (t : Targets) (doc : Document) (w : World)
      → started_or
          (new_meta sha256 enabled durable job t doc)
          (start_new sha256 enabled durable takes job t doc w).1
        ≡ new_meta sha256 enabled durable job t doc
  unfolding start_new started_or
  started_or-start_new takes job t doc w = ground arith

  -- What a successful start stores.
  start_new-started :
      (takes : Bool) (job : Str) (t : Targets) (doc : Document) (w : World) (m : Meta)
      → (start_new sha256 enabled durable takes job t doc w).1 ≡ started m
      → let w' = (start_new sha256 enabled durable takes job t doc w).0 in
        (w'.jobs ≡ save_job_meta (new_meta sha256 enabled durable job t doc) w.jobs)
        × (w'.documents ≡ (stored sha256 enabled durable job t doc w).documents)
  unfolding start_new
  start_new-started takes job t doc w m h = ground (arith, h)

  new_meta-is_reusable :
      (job : Str) (t : Targets) (doc : Document) (id : Str)
      → doc.doc_id ≡ id
      → is_reusable id t (new_meta sha256 enabled durable job t doc) ≡ true
  unfolding is_reusable new_meta is_terminal
  new_meta-is_reusable job t doc id e = ground (arith, e, str_eq_iff doc.doc_id id)

  -- A start that finds a job changes nothing.
  finds_existing :
      (takes : Bool) (fresh id : Str) (engines : Targets) (key : Option Str) (w : World) (m : Meta)
      → is_some (get_document id w.documents) ≡ true
      → (load_stable sha256 enabled durable (stable_id sha256 enabled durable key) w.jobs ≡ some m)
        ⊎ ((load_stable sha256 enabled durable (stable_id sha256 enabled durable key) w.jobs ≡ none)
            × (find_reusable id (or_both engines) w.jobs ≡ some m))
      → start_indexing sha256 enabled durable takes fresh id engines key w ≡ (w, existing m)
  unfolding start_indexing
  finds_existing takes fresh id engines key w m there found =
      elim (document-cases (get_document id w.documents)) [
        | inl absent ↦ ground (arith, absent, there)
        | inr (doc, e) ↦ elim found [
          | inl by_key ↦ rw (start_indexing, e, by_key) refl
          | inr (no_key, by_doc) ↦ rw (start_indexing, e, no_key, by_doc) refl
        ]
      ]

  new_found :
      (fresh id : Str) (t : Targets) (key : Option Str) (doc : Document) (jobs : List Meta)
      → doc.doc_id ≡ id
      → load_stable sha256 enabled durable (stable_id sha256 enabled durable key) jobs ≡ none
      → find_reusable id t jobs ≡ none
      → let sid = stable_id sha256 enabled durable key in
        let new =
          new_meta sha256 enabled durable (or_fresh sha256 enabled durable sid fresh) t doc in
        (load_stable sha256 enabled durable sid (save_job_meta new jobs) ≡ some new)
        ⊎ ((load_stable sha256 enabled durable sid (save_job_meta new jobs) ≡ none)
            × (find_reusable id t (save_job_meta new jobs) ≡ some new))
  unfolding new_meta
  new_found fresh id t key doc jobs e no_key no_doc = by_id (stable_id sha256 enabled durable key)
    where
      by_id :
          (sid : Option Str)
          → let new =
              new_meta sha256 enabled durable (or_fresh sha256 enabled durable sid fresh) t doc in
            (load_stable sha256 enabled durable sid (save_job_meta new jobs) ≡ some new)
            ⊎ ((load_stable sha256 enabled durable sid (save_job_meta new jobs) ≡ none)
                × (find_reusable id t (save_job_meta new jobs) ≡ some new))
      by_id none = inr (
        refl,
        find_reusable-save id t (new_meta sha256 enabled durable fresh t doc) jobs no_doc
            (new_meta-is_reusable fresh t doc id e),
      )
      by_id (some sid) = inl (load-save (new_meta sha256 enabled durable sid t doc) jobs)

  -- Where a start goes through, no job was there to be found.
  first_start :
      (takes : Bool) (fresh id : Str) (engines : Targets) (key : Option Str) (w : World) (m : Meta)
      → (start_indexing sha256 enabled durable takes fresh id engines key w).1 ≡ started m
      → let sid = stable_id sha256 enabled durable key in
        (doc : Document) × (get_document id w.documents ≡ some doc)
        × (load_stable sha256 enabled durable sid w.jobs ≡ none)
        × (find_reusable id (or_both engines) w.jobs ≡ none)
        × (start_indexing sha256 enabled durable takes fresh id engines key w
            ≡ start_new sha256 enabled durable takes
                (or_fresh sha256 enabled durable sid fresh)
                (or_both engines)
                doc
                w)
  unfolding start_indexing
  first_start takes fresh id engines key w m h =
      let sid = stable_id sha256 enabled durable key in
      elim (document-cases (get_document id w.documents)) [
        | inl absent ↦ ground (arith, absent, h)
        | inr (doc, e) ↦ elim (meta-cases (load_stable sha256 enabled durable sid w.jobs)) [
          | inr (x, by_key) ↦ ground (arith, e, by_key, h)
          | inl no_key ↦ elim (meta-cases (find_reusable id (or_both engines) w.jobs)) [
            | inr (y, by_doc) ↦ ground (arith, e, no_key, by_doc, h)
            | inl no_doc ↦ (doc, e, no_key, no_doc, rw (start_indexing, e, no_key, no_doc) refl)
          ]
        ]
      ]

  -- A start that went through, repeated for the same document, engines and key, whatever id a new
  -- job would get and whether or not the queue would take it, returns the job of the first one and
  -- changes nothing.
  pub start_indexing_again :
      (takes takes' : Bool) (fresh fresh' id : Str) (engines : Targets) (key : Option Str)
      (w : World) (m : Meta)
      → (start_indexing sha256 enabled durable takes fresh id engines key w).1 ≡ started m
      → let w' = (start_indexing sha256 enabled durable takes fresh id engines key w).0 in
        start_indexing sha256 enabled durable takes' fresh' id engines key w' ≡ (w', existing m)
  unfolding started_or
  start_indexing_again takes takes' fresh fresh' id engines key w m h =
      let sid = stable_id sha256 enabled durable key in
      let job = or_fresh sha256 enabled durable sid fresh in
      let t = or_both engines in
      let (doc, e, no_key, no_doc, same) = first_start takes fresh id engines key w m h in
      let h' : (start_new sha256 enabled durable takes job t doc w).1 ≡ started m =
        ap (λ (p : World × Started). p.1) (sym same) ∙ h in
      let stores = start_new-started takes job t doc w m h' in
      let is_new : new_meta sha256 enabled durable job t doc ≡ m =
        sym (started_or-start_new takes job t doc w)
        ∙ ap (started_or (new_meta sha256 enabled durable job t doc)) h' in
      rw same (
        finds_existing takes' fresh' id engines key
          (start_new sha256 enabled durable takes job t doc w).0 m
          (ap (λ ds. is_some (get_document id ds)) stores.1
            ∙ (is_some-mark id doc.doc_id job t.light lightrag
                  (mark_index sha256 enabled durable doc.doc_id job t.classic legacy w.documents)
                ∙ is_some-mark id doc.doc_id job t.classic legacy w.documents
                ∙ ap is_some e))
          (rw (stores.0, sym is_new)
            (new_found fresh id t key doc w.jobs (get_document-doc_id id w.documents doc e) no_key
              no_doc)))
