-- ===== src/Indexing/Cancelled.antt =====
-- After cancel_job and cancel_document_jobs of indexing_service.py no worker may write.
use graphrag_agent.Base.{
  ◌≡◌, refl, sym, ap, ◌∙◌, subst, Bool, true, false, ◌⊎◌, inl, inr, Option, none, some, List, [],
  ◌∷◌, arith, Bool-cases,
}
use graphrag_agent.Base.Text.{Str, str_eq, str_eq_iff, str_eq_refl}
use graphrag_agent.Documents.Status.{legacy, lightrag, cancelled}
use graphrag_agent.Indexing.Jobs.{
  Meta, World, is_terminal, is_active, load_job_meta, with_status, is_cancelled,
  index_write_is_allowed, flagged, is_cancelled_meta, is_cancelled_status,
}
use graphrag_agent.Indexing.Cancel.{cancel_engine, mark_cancelled, cancel_job}
use graphrag_agent.Indexing.Fences.{
  map_meta, load-update_self, load-update_other, view, is_open, terminal-active, IsQuiet,
  IsQuiet-trans, cancel_engine-IsQuiet, View,
}

pub Option-cases : (o : Option Meta) → (o ≡ none) ⊎ ((m : Meta) × (o ≡ some m))
Option-cases none = inl refl
Option-cases (some m) = inr (m, refl)

abbrev id_or : Str → Option Meta → Str
id_or id none = id
id_or id (some m) = m.job_id

load-job_id :
    (id : Str) (jobs : List Meta) (m : Meta) → load_job_meta id jobs ≡ some m → m.job_id ≡ id
unfolding load_job_meta
load-job_id id [] m e = ground (arith, e)
load-job_id id (x ∷ jobs) m e = elim (Bool-cases (str_eq x.job_id id)) [
  | inl same ↦
      let first : load_job_meta id (x ∷ jobs) ≡ some x = rw same refl in
      ap (id_or id) (sym e ∙ first) ∙ (str_eq_iff x.job_id id).0 same
  | inr other ↦ load-job_id id jobs m (ground (arith, e, other))
]

-- The job is no longer open, for any document, and the other jobs are as they were.
pub record IsClosed (id : Str) (w w' : World) : Type 0 where
  pub others : (i : Str) → str_eq id i ≡ false → load_job_meta i w'.jobs ≡ load_job_meta i w.jobs
  pub closed : (doc : Str) → is_open doc (view (load_job_meta id w'.jobs)) ≡ false

-- What the cancellation of a running job makes of the state.
abbrev after : Bool → Bool → Meta → World → World
after enabled cleanup m w =
    cancel_engine enabled cleanup m lightrag
      (cancel_engine enabled cleanup m legacy (mark_cancelled m w))

after-IsQuiet :
    (enabled cleanup : Bool) (m : Meta) (w : World)
    → IsQuiet m.job_id (mark_cancelled m w) (after enabled cleanup m w)
after-IsQuiet enabled cleanup m w =
    let marked = mark_cancelled m w in
    let one = cancel_engine enabled cleanup m legacy marked in
    IsQuiet-trans m.job_id marked one (after enabled cleanup m w)
      (cancel_engine-IsQuiet enabled cleanup m legacy marked)
      (cancel_engine-IsQuiet enabled cleanup m lightrag one)

is_open-cancelled :
    (doc : Str) (o : Option Meta) → is_open doc (view (map_meta (with_status cancelled) o)) ≡ false
unfolding is_active
is_open-cancelled doc none = refl
is_open-cancelled doc (some m) = ground arith

after-IsClosed :
    (enabled cleanup : Bool) (m : Meta) (w : World)
    → IsClosed m.job_id w (after enabled cleanup m w)
after-IsClosed enabled cleanup m w =
    let quiet = after-IsQuiet enabled cleanup m w in
    record {
      others = λ i ne.
          quiet.others i ne
          ∙ load-update_other m.job_id i (with_status cancelled) w.jobs (λ x. refl) ne;
      closed = λ doc.
          ap (is_open doc) quiet.same
          ∙ ap (λ o. is_open doc (view o))
              (load-update_self m.job_id (with_status cancelled) w.jobs (λ x. refl))
          ∙ is_open-cancelled doc (load_job_meta m.job_id w.jobs);
    }

pub cancel_job-IsClosed :
    (enabled cleanup : Bool) (id : Str) (w : World)
    → IsClosed id w (cancel_job enabled cleanup id w).0
unfolding cancel_job
cancel_job-IsClosed enabled cleanup id w = elim (Option-cases (load_job_meta id w.jobs)) [
  | inl absent ↦
      rw (cancel_job, absent) (record { others = λ i ne. refl; closed = λ doc. rw absent refl })
  | inr (m, found) ↦ elim (Bool-cases (is_terminal m.status)) [
    | inl ended ↦
        rw (cancel_job, found, ended)
          (record {
            others = λ i ne. refl;
            closed = λ doc. rw found (ground (arith, terminal-active m.status ended));
          })
    | inr live ↦
        rw (cancel_job, found, live)
          (subst (λ j. IsClosed j w (after enabled cleanup m w)) (load-job_id id w.jobs m found)
            (after-IsClosed enabled cleanup m w))
  ]
]

flagged_first : (id : Str) (flags : List Str) → flagged id (id ∷ flags) ≡ true
unfolding flagged
flagged_first id flags = ground (arith, str_eq_refl id)

flagged-write :
    (id doc : Str) (w : World) → flagged id w.flags ≡ true → index_write_is_allowed id doc w ≡ false
unfolding index_write_is_allowed is_cancelled
flagged-write id doc w h = rw h refl

abbrev shows_cancelled : View → Bool
shows_cancelled none = false
shows_cancelled (some (t, d, s)) = is_cancelled_status s

is_cancelled_meta-view : (o : Option Meta) → is_cancelled_meta o ≡ shows_cancelled (view o)
is_cancelled_meta-view none = refl
is_cancelled_meta-view (some m) = refl

-- The stored status of the job is `cancelled` behind its cancellation.
after_cancelled :
    (enabled cleanup : Bool) (m : Meta) (w : World)
    → load_job_meta m.job_id w.jobs ≡ some m
    → is_cancelled_meta (load_job_meta m.job_id (after enabled cleanup m w).jobs) ≡ true
after_cancelled enabled cleanup m w found =
    is_cancelled_meta-view (load_job_meta m.job_id (after enabled cleanup m w).jobs)
    ∙ ap shows_cancelled (after-IsQuiet enabled cleanup m w).same
    ∙ ap (λ o. shows_cancelled (view o))
        (load-update_self m.job_id (with_status cancelled) w.jobs (λ x. refl))
    ∙ ap (λ o. shows_cancelled (view (map_meta (with_status cancelled) o))) found

cancelled-stored :
    (id : Str) (flags : List Str) (w : World)
    → is_cancelled_meta (load_job_meta id w.jobs) ≡ true
    → is_cancelled id (record w { flags = flags }) ≡ true
unfolding is_cancelled
cancelled-stored id flags w h = ground (arith, h)

cancelled-write :
    (id doc : Str) (w : World) → is_cancelled id w ≡ true → index_write_is_allowed id doc w ≡ false
unfolding index_write_is_allowed
cancelled-write id doc w h = rw h refl

-- Cancelling a job that has not ended stops its worker, whichever of its indexes are finished: the
-- job's flag is set in the process, and its stored status alone shows the cancellation to a process
-- with any other flags; no write of the job is allowed any more, for any document, in this process
-- or in such another one. The metadata of every other job stays.
pub cancel_job_lem :
    (enabled cleanup : Bool) (id other doc : Str) (flags : List Str) (w : World) (m : Meta)
    → load_job_meta id w.jobs ≡ some m
    → is_terminal m.status ≡ false
    → str_eq id other ≡ false
    → let w' = (cancel_job enabled cleanup id w).0 in
      (index_write_is_allowed id doc w' ≡ false)
      × (flagged id w'.flags ≡ true)
      × (is_cancelled id (record w' { flags = flags }) ≡ true)
      × (index_write_is_allowed id doc (record w' { flags = flags }) ≡ false)
      × (load_job_meta other w'.jobs ≡ load_job_meta other w.jobs)
unfolding cancel_job
cancel_job_lem enabled cleanup id other doc flags w m found live ne =
    let same = load-job_id id w.jobs m found in
    let w' = (cancel_job enabled cleanup id w).0 in
    let ran : w' ≡ after enabled cleanup m w = rw (cancel_job, found, live) refl in
    let set : flagged id w'.flags ≡ true =
      ap (λ (x : World). flagged id x.flags) ran
      ∙ ap (flagged id) (after-IsQuiet enabled cleanup m w).flags
      ∙ ap (λ j. flagged id (j ∷ w.flags)) same
      ∙ flagged_first id w.flags in
    let stored : is_cancelled_meta (load_job_meta id w'.jobs) ≡ true =
      ap (λ (x : World). is_cancelled_meta (load_job_meta id x.jobs)) ran
      ∙ ap (λ j. is_cancelled_meta (load_job_meta j (after enabled cleanup m w).jobs)) (sym same)
      ∙ after_cancelled enabled cleanup m w (ap (λ j. load_job_meta j w.jobs) same ∙ found) in
    let elsewhere = cancelled-stored id flags w' stored in
    (
      flagged-write id doc w' set,
      set,
      elsewhere,
      cancelled-write id doc (record w' { flags = flags }) elsewhere,
      (cancel_job-IsClosed enabled cleanup id w).others other ne,
    )
