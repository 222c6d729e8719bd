-- ===== src/Indexing/Fences.antt =====
-- What a cancellation in indexing_service.py guarantees against a worker that is still running.
use graphrag_agent.Base.{
  ◌≡◌, refl, ap, ◌∙◌, Bool, true, false, not, ◌&&◌, ◌⊎◌, inl, inr, Option, none, some, List, [],
  ◌∷◌, if◌then◌else◌, arith, Bool-cases,
}
use graphrag_agent.Base.Text.{Str, str_eq, str_eq_iff}
use graphrag_agent.Documents.Status.{
  Engine, legacy, lightrag, Status, submitted, queued, pending, parsing, extracting, indexing,
  running, done, partial, failed, cancelled, disabled, Document, get_document, normalized_index,
}
use graphrag_agent.Indexing.Deletion.{delete_or_schedule}
use graphrag_agent.Indexing.Jobs.{
  JobType, Meta, World, is_terminal, is_active, is_delete, load_job_meta, update_meta, with_engine,
  engine_state, is_target,
}
use graphrag_agent.Indexing.Cancel.{
  is_done, is_settled, cleanup_completed_child, cancel_state, cancel_engine,
}

abbrev pub map_meta : (Meta → Meta) → Option Meta → Option Meta
map_meta f none = none
map_meta f (some m) = some (f m)

-- The change keeps every job's id.
abbrev KeepsId : (Meta → Meta) → Type 0
KeepsId set = (m : Meta) → (set m).job_id ≡ m.job_id

pub load-update_self :
    (id : Str) (set : Meta → Meta) (jobs : List Meta)
    → KeepsId set
    → load_job_meta id (update_meta id set jobs) ≡ map_meta set (load_job_meta id jobs)
unfolding load_job_meta update_meta
load-update_self id set [] k = refl
load-update_self id set (m ∷ jobs) k = elim (Bool-cases (str_eq m.job_id id)) [
  | inl e ↦ rw (e, k m, e) refl
  | inr e ↦ rw (e, e) (load-update_self id set jobs k)
]

pub load-update_other :
    (id i : Str) (set : Meta → Meta) (jobs : List Meta)
    → KeepsId set
    → str_eq id i ≡ false
    → load_job_meta i (update_meta id set jobs) ≡ load_job_meta i jobs
unfolding load_job_meta update_meta
load-update_other id i set [] k ne = refl
load-update_other id i set (m ∷ jobs) k ne = elim (Bool-cases (str_eq m.job_id id)) [
  | inl e ↦ rw (e, k m, (str_eq_iff m.job_id id).0 e, ne) refl
  | inr e ↦ rw (e, load-update_other id i set jobs k ne) refl
]

-- What the tests of an open job read.
abbrev pub View : Type 0
View = Option (JobType × Str × Status)

abbrev pub view : Option Meta → View
view none = none
view (some m) = some (m.job_type, m.doc_id, m.status)

-- The view is that of an active index job of the document.
abbrev pub is_open : Str → View → Bool
is_open doc none = false
is_open doc (some (t, d, s)) = not (is_delete t) && str_eq d doc && is_active s

pub terminal-active : (s : Status) → is_terminal s ≡ true → is_active s ≡ false
unfolding is_terminal is_active
terminal-active submitted h = ground (arith, h)
terminal-active queued h = ground (arith, h)
terminal-active pending h = ground (arith, h)
terminal-active parsing h = ground (arith, h)
terminal-active extracting h = ground (arith, h)
terminal-active indexing h = ground (arith, h)
terminal-active running h = ground (arith, h)
terminal-active done h = refl
terminal-active partial h = refl
terminal-active failed h = refl
terminal-active cancelled h = refl
terminal-active disabled h = refl

with_engine-view :
    (e : Engine) (s : Status) (err : Option Str) (o : Option Meta)
    → view (map_meta (with_engine e s err) o) ≡ view o
with_engine-view legacy s err none = refl
with_engine-view lightrag s err none = refl
with_engine-view legacy s err (some m) = refl
with_engine-view lightrag s err (some m) = refl

with_engine-KeepsId : (e : Engine) (s : Status) (err : Option Str) → KeepsId (with_engine e s err)
with_engine-KeepsId legacy s err m = refl
with_engine-KeepsId lightrag s err m = refl

scheduled-jobs :
    (s : Status) (doc : Str) (w : World)
    → ((delete_or_schedule s doc w).jobs ≡ w.jobs) × ((delete_or_schedule s doc w).flags ≡ w.flags)
unfolding delete_or_schedule
scheduled-jobs s doc w = ground arith

pub document_or_none : (o : Option Document) → (o ≡ none) ⊎ ((d : Document) × (o ≡ some d))
document_or_none none = inl refl
document_or_none (some d) = inr (d, refl)

cleanup-jobs :
    (enabled : Bool) (m : Meta) (e : Engine) (w : World)
    → ((cleanup_completed_child enabled m e w).jobs ≡ w.jobs)
      × ((cleanup_completed_child enabled m e w).flags ≡ w.flags)
unfolding cleanup_completed_child
cleanup-jobs enabled m legacy w = ground arith
cleanup-jobs enabled m lightrag w = elim (document_or_none (get_document m.doc_id w.documents)) [
  | inl absent ↦ rw (cleanup_completed_child, absent) (refl, refl)
  | inr (d, found) ↦
      rw (cleanup_completed_child, found)
        (ground (arith, scheduled-jobs (normalized_index enabled lightrag d).status m.doc_id w))
]

-- The children's rounds change no other job, not what the tests read of this one, and no flag.
pub record IsQuiet (id : Str) (w w' : World) : Type 0 where
  pub others : (i : Str) → str_eq id i ≡ false → load_job_meta i w'.jobs ≡ load_job_meta i w.jobs
  pub same : view (load_job_meta id w'.jobs) ≡ view (load_job_meta id w.jobs)
  pub flags : w'.flags ≡ w.flags

IsQuiet-refl : (id : Str) (w : World) → IsQuiet id w w
IsQuiet-refl id w = record { others = λ i ne. refl; same = refl; flags = refl }

pub IsQuiet-trans : (id : Str) (a b c : World) → IsQuiet id a b → IsQuiet id b c → IsQuiet id a c
IsQuiet-trans id a b c p q = record {
  others = λ i ne. q.others i ne ∙ p.others i ne;
  same = q.same ∙ p.same;
  flags = q.flags ∙ p.flags;
}

cleanup-IsQuiet :
    (enabled : Bool) (id : Str) (m : Meta) (e : Engine) (w : World)
    → IsQuiet id w (cleanup_completed_child enabled m e w)
cleanup-IsQuiet enabled id m e w = record {
  others = λ i ne. ap (load_job_meta i) (cleanup-jobs enabled m e w).0;
  same = ap (λ jobs. view (load_job_meta id jobs)) (cleanup-jobs enabled m e w).0;
  flags = (cleanup-jobs enabled m e w).1;
}

cancel_state-IsQuiet :
    (enabled : Bool) (m : Meta) (e : Engine) (w : World)
    → IsQuiet m.job_id w (cancel_state enabled m e w)
cancel_state-IsQuiet enabled m e w = record {
  others = λ i ne.
      load-update_other m.job_id i (with_engine e cancelled none) w.jobs
        (with_engine-KeepsId e cancelled none) ne;
  same =
      ap view (
        load-update_self m.job_id (with_engine e cancelled none) w.jobs
          (with_engine-KeepsId e cancelled none))
      ∙ with_engine-view e cancelled none (load_job_meta m.job_id w.jobs);
  flags = refl;
}

cleaned-IsQuiet :
    (enabled b : Bool) (m : Meta) (e : Engine) (w : World)
    → IsQuiet m.job_id w (if b then cleanup_completed_child enabled m e w else w)
cleaned-IsQuiet enabled b m e w = elim (Bool-cases b) [
  | inl on ↦ rw on (cleanup-IsQuiet enabled m.job_id m e w)
  | inr off ↦ rw off (IsQuiet-refl m.job_id w)
]

pub cancel_engine-IsQuiet :
    (enabled cleanup : Bool) (m : Meta) (e : Engine) (w : World)
    → IsQuiet m.job_id w (cancel_engine enabled cleanup m e w)
unfolding cancel_engine
cancel_engine-IsQuiet enabled cleanup m e w =
    let status = (engine_state m e).status in
    let cleaned = if is_done status && cleanup then cleanup_completed_child enabled m e w else w in
    let quiet = cleaned-IsQuiet enabled (is_done status && cleanup) m e w in
    elim (Bool-cases (is_target m e)) [
      | inr out ↦ rw out (IsQuiet-refl m.job_id w)
      | inl target ↦ elim (Bool-cases (is_done status && not cleanup)) [
        | inl kept ↦ rw (target, kept) (IsQuiet-refl m.job_id w)
        | inr on ↦ elim (Bool-cases (is_settled status)) [
          | inl settled ↦ rw (target, on, settled) quiet
          | inr open_one ↦
              rw (target, on, open_one)
                (IsQuiet-trans m.job_id w cleaned (cancel_state enabled m e cleaned) quiet
                  (cancel_state-IsQuiet enabled m e cleaned))
        ]
      ]
    ]
