-- ===== src/Indexing/Swept.antt =====
-- After cancel_document_jobs of indexing_service.py none of the document's jobs is open.
use graphrag_agent.Base.{
  ◌≡◌, refl, sym, ap, ◌∙◌, Bool, true, false, not, ◌&&◌, ◌⊎◌, inl, inr, Option, none, some, List,
  [], ◌∷◌, if◌then◌else◌, arith, Bool-cases,
}
use graphrag_agent.Base.Text.{Str, str_eq, str_eq_iff, nonempty}
use graphrag_agent.Indexing.Jobs.{Meta, World, is_active, load_job_meta, update_meta}
use graphrag_agent.Indexing.Cancel.{
  cancel_job, is_job_of, is_found, cancel_one, cancel_jobs, cancel_document_jobs, detached,
}
use graphrag_agent.Indexing.Fences.{map_meta, load-update_self, load-update_other, view, is_open}
use graphrag_agent.Indexing.Cancelled.{IsClosed, cancel_job-IsClosed}

-- One round of the loop.
IsClosed-same :
    (id : Str) (w : World)
    → ((doc : Str) → is_open doc (view (load_job_meta id w.jobs)) ≡ false)
    → IsClosed id w w
IsClosed-same id w h = record { others = λ i ne. refl; closed = h }

is_open-detached :
    (d doc id : Str) (o : Option Meta) → is_open d (view (map_meta (detached doc id) o)) ≡ false
unfolding is_active
is_open-detached d doc id none = refl
is_open-detached d doc id (some m) = ground arith

detached-IsClosed :
    (doc id : Str) (w w' : World)
    → IsClosed id w w'
    → IsClosed id w (record w' { jobs = update_meta id (detached doc id) w'.jobs })
detached-IsClosed doc id w w' v = record {
  others = λ i ne. load-update_other id i (detached doc id) w'.jobs (λ m. refl) ne ∙ v.others i ne;
  closed = λ d.
      ap (λ o. is_open d (view o)) (load-update_self id (detached doc id) w'.jobs (λ m. refl))
      ∙ is_open-detached d doc id (load_job_meta id w'.jobs);
}

finish-IsClosed :
    (detach : Bool) (doc id : Str) (w w' : World)
    → IsClosed id w w'
    → IsClosed id w
        (if◌then◌else◌ {A = World × Bool} detach
          (record w' { jobs = update_meta id (detached doc id) w'.jobs }, true)
          (w', true)).0
finish-IsClosed true doc id w w' v = detached-IsClosed doc id w w' v
finish-IsClosed false doc id w w' v = v

skipped :
    (enabled detach : Bool) (doc : Str) (m : Meta) (w : World)
    → (is_job_of doc m && nonempty m.job_id) ≡ false
    → (cancel_one enabled detach doc m w).0 ≡ w
unfolding cancel_one
skipped enabled detach doc m w h = rw h refl

taken_round :
    (enabled detach : Bool) (doc : Str) (m : Meta) (w : World)
    → (is_job_of doc m && nonempty m.job_id) ≡ true
    → IsClosed m.job_id w (cancel_one enabled detach doc m w).0
unfolding cancel_one
taken_round enabled detach doc m w h =
    let closed = cancel_job-IsClosed enabled (not detach) m.job_id w in
    let outcome = (cancel_job enabled (not detach) m.job_id w).1 in
    elim (Bool-cases (is_found outcome)) [
      | inr absent ↦ rw (h, absent) closed
      | inl present ↦
          rw (h, present)
            (finish-IsClosed detach doc m.job_id w (cancel_job enabled (not detach) m.job_id w).0
              closed)
    ]

-- A round either leaves the state alone, for a job that is not to be cancelled, or closes the job.
cancel_one-cases :
    (enabled detach : Bool) (doc : Str) (m : Meta) (w : World)
    → ((cancel_one enabled detach doc m w).0 ≡ w) × ((is_job_of doc m && nonempty m.job_id) ≡ false)
      ⊎ IsClosed m.job_id w (cancel_one enabled detach doc m w).0
cancel_one-cases enabled detach doc m w =
    let w' = (cancel_job enabled (not detach) m.job_id w).0 in
    let closed = cancel_job-IsClosed enabled (not detach) m.job_id w in
    elim (Bool-cases (is_job_of doc m && nonempty m.job_id)) [
      | inr skip ↦ inl (skipped enabled detach doc m w skip, skip)
      | inl taken ↦ inr (taken_round enabled detach doc m w taken)
    ]

-- No job of the document is open any more.
Settled : Str → Str → World → Type 0
Settled doc i w = is_open doc (view (load_job_meta i w.jobs)) ≡ false

cancel_one-Settled :
    (enabled detach : Bool) (doc i : Str) (m : Meta) (w : World)
    → Settled doc i w
    → Settled doc i (cancel_one enabled detach doc m w).0
unfolding Settled
cancel_one-Settled enabled detach doc i m w h = elim (cancel_one-cases enabled detach doc m w) [
  | inl (same, skip) ↦ rw same h
  | inr v ↦ elim (Bool-cases (str_eq m.job_id i)) [
    | inl mine ↦ rw (sym ((str_eq_iff m.job_id i).0 mine)) (v.closed doc)
    | inr other ↦ rw (v.others i other) h
  ]
]

cancel_jobs-Settled :
    (enabled detach : Bool) (doc i : Str) (jobs : List Meta) (w : World)
    → Settled doc i w
    → Settled doc i (cancel_jobs enabled detach doc jobs w).0
unfolding cancel_jobs
cancel_jobs-Settled enabled detach doc i [] w h = h
cancel_jobs-Settled enabled detach doc i (m ∷ jobs) w h =
    cancel_jobs-Settled enabled detach doc i jobs (cancel_one enabled detach doc m w).0
      (cancel_one-Settled enabled detach doc i m w h)

nothing_open :
    (doc i : Str) (w : World) → load_job_meta i w.jobs ≡ load_job_meta i [] → Settled doc i w
unfolding Settled load_job_meta
nothing_open doc i w h = rw h refl

load-skip :
    (i : Str) (m : Meta) (jobs : List Meta)
    → str_eq m.job_id i ≡ false
    → load_job_meta i (m ∷ jobs) ≡ load_job_meta i jobs
unfolding load_job_meta
load-skip i m jobs h = rw h refl

load-hit :
    (i : Str) (m : Meta) (jobs : List Meta)
    → str_eq m.job_id i ≡ true
    → load_job_meta i (m ∷ jobs) ≡ some m
unfolding load_job_meta
load-hit i m jobs h = rw h refl

untouched :
    (enabled detach : Bool) (doc i : Str) (m : Meta) (w : World)
    → str_eq m.job_id i ≡ false
    → load_job_meta i (cancel_one enabled detach doc m w).0.jobs ≡ load_job_meta i w.jobs
untouched enabled detach doc i m w h = elim (cancel_one-cases enabled detach doc m w) [
  | inl (same, skip) ↦ ap (λ (v : World). load_job_meta i v.jobs) same
  | inr v ↦ v.others i h
]

turn :
    (enabled detach : Bool) (doc i : Str) (m : Meta) (jobs : List Meta) (w : World)
    → nonempty i ≡ true
    → str_eq m.job_id i ≡ true
    → load_job_meta i w.jobs ≡ load_job_meta i (m ∷ jobs)
    → Settled doc i (cancel_one enabled detach doc m w).0
unfolding Settled is_job_of
turn enabled detach doc i m jobs w ne mine h =
    let id_eq = (str_eq_iff m.job_id i).0 mine in
    elim (cancel_one-cases enabled detach doc m w) [
      | inr v ↦ rw (sym id_eq) (v.closed doc)
      | inl (same, skip) ↦
          rw (same, h ∙ load-hit i m jobs mine) (ground (arith, skip, ap nonempty id_eq ∙ ne))
    ]

-- The job comes to its turn in the loop.
cancel_jobs-reached :
    (enabled detach : Bool) (doc i : Str) (jobs : List Meta) (w : World)
    → nonempty i ≡ true
    → load_job_meta i w.jobs ≡ load_job_meta i jobs
    → Settled doc i (cancel_jobs enabled detach doc jobs w).0
unfolding cancel_jobs
cancel_jobs-reached enabled detach doc i [] w ne h = nothing_open doc i w h
cancel_jobs-reached enabled detach doc i (m ∷ jobs) w ne h =
    let w' = (cancel_one enabled detach doc m w).0 in
    elim (Bool-cases (str_eq m.job_id i)) [
      | inl mine ↦
          cancel_jobs-Settled enabled detach doc i jobs w'
            (turn enabled detach doc i m jobs w ne mine h)
      | inr other ↦
          cancel_jobs-reached enabled detach doc i jobs w' ne
            (untouched enabled detach doc i m w other ∙ h ∙ load-skip i m jobs other)
    ]

-- After the document's jobs are cancelled, no job in the store is an active index job of the
-- document, whatever else is in the store; only jobs without an id are passed over.
pub cancel_document_jobs_lem :
    (enabled detach : Bool) (doc i : Str) (w : World) (m : Meta)
    → nonempty i ≡ true
    → load_job_meta i (cancel_document_jobs enabled detach doc w).0.jobs ≡ some m
    → is_job_of doc m ≡ false
unfolding cancel_document_jobs is_job_of Settled
cancel_document_jobs_lem enabled detach doc i w m ne found =
    ap (λ o. is_open doc (view o)) (sym found)
    ∙ cancel_jobs-reached enabled detach doc i w.jobs w ne refl
