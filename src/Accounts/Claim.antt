-- ===== src/Accounts/Claim.antt =====
-- What claim_visitor_data of account_repository.py moves.
use graphrag_agent.Base.{
  ℕ, ◌+◌, ◌≡◌, refl, ◌∙◌, ap, not, Bool, true, false, Option, none, some, List, [], ◌∷◌,
  if◌then◌else◌, keep_if, arith, Bool-cases, inl, inr, All,
}
use graphrag_agent.Base.Text.{Str, str_eq, str_eq_iff, nonempty, codes}
use graphrag_agent.Identity.Request.{RequestIdentity}
use graphrag_agent.Accounts.Tables.{
  Owned, Job, Database, update_where, count_where, Payload, field, put_field, merge,
}
use graphrag_agent.Accounts.Repository.{
  owned_by, give, give_job, job_of, move_rows, claim_visitor_data,
}
use graphrag_agent.Accounts.Exports.{tenant_document_ids}

-- Each of the visitor's rows has become one of the tenant's, and `owner` has the rows that it had,
-- unchanged. `n` counts the rows that moved.
pub record IsMoved (visitor tenant owner : Str) (rows rows' : List Owned) (n : ℕ) : Type 0 where
  pub counted : n ≡ count_where (owned_by visitor) rows
  pub emptied : count_where (owned_by visitor) rows' ≡ 0
  pub arrived :
      count_where (owned_by tenant) rows'
      ≡ count_where (owned_by tenant) rows + count_where (owned_by visitor) rows
  pub others : keep_if (owned_by owner) rows' ≡ keep_if (owned_by owner) rows

module _ (visitor tenant : Str) (differ : str_eq visitor tenant ≡ false) where
  abbrev Gives : (Owned → Owned) → Type 0
  Gives set = (row : Owned) → (set row).owner_id ≡ tenant

  str_eq_swapped : (a b : Str) → str_eq a b ≡ false → str_eq b a ≡ false
  str_eq_swapped a b h = ground (arith, str_eq_iff a b, str_eq_iff b a, h)

  -- A test of the owner that is false of both does not tell a row that moves.
  moved :
      (set : Owned → Owned)
      → Gives set
      → (row : Owned) → owned_by visitor row ≡ true
      → (owned_by visitor (set row) ≡ false)
        × (owned_by tenant (set row) ≡ true)
        × (owned_by tenant row ≡ false)
  moved set g row h = (
    rw (g row) (str_eq_swapped visitor tenant differ),
    (str_eq_iff (set row).owner_id tenant).1 (g row),
    rw ((str_eq_iff row.owner_id visitor).0 h) differ,
  )

  not_moved :
      (set : Owned → Owned)
      → Gives set
      → (owner : Str) → str_eq owner visitor ≡ false
      → str_eq owner tenant ≡ false
      → (row : Owned) → owned_by visitor row ≡ true
      → (owned_by owner (set row) ≡ false) × (owned_by owner row ≡ false)
  not_moved set g owner nv nt row h = (
    rw (g row) (str_eq_swapped owner tenant nt),
    rw ((str_eq_iff row.owner_id visitor).0 h) (str_eq_swapped owner visitor nv),
  )

  counts :
      (set : Owned → Owned)
      → Gives set
      → (rows : List Owned)
      → (count_where (owned_by visitor) (update_where (owned_by visitor) set rows) ≡ 0)
        × (count_where (owned_by tenant) (update_where (owned_by visitor) set rows)
            ≡ count_where (owned_by tenant) rows + count_where (owned_by visitor) rows)
  counts set g [] = (refl, refl)
  counts set g (row ∷ rows) =
      let rest = counts set g rows in
      elim (Bool-cases (owned_by visitor row)) [
        | inl mine ↦
            let m = moved set g row mine in rw (mine, m.0, m.1, m.2) (rest.0, omega (arith, rest.1))
        | inr other ↦ rw (other, other) (rest.0, ground (arith, rest.1))
      ]

  others_kept :
      (set : Owned → Owned)
      → Gives set
      → (owner : Str) → str_eq owner visitor ≡ false
      → str_eq owner tenant ≡ false
      → (rows : List Owned)
      → keep_if (owned_by owner) (update_where (owned_by visitor) set rows)
        ≡ keep_if (owned_by owner) rows
  others_kept set g owner nv nt [] = refl
  others_kept set g owner nv nt (row ∷ rows) = elim (Bool-cases (owned_by visitor row)) [
    | inl mine ↦
        let m = not_moved set g owner nv nt row mine in
        rw (mine, m.0, m.1) (others_kept set g owner nv nt rows)
    | inr other ↦ rw (other, others_kept set g owner nv nt rows) refl
  ]

  update-IsMoved :
      (set : Owned → Owned)
      → Gives set
      → (owner : Str) → str_eq owner visitor ≡ false
      → str_eq owner tenant ≡ false
      → (rows : List Owned)
      → IsMoved visitor tenant owner rows
          (update_where (owned_by visitor) set rows)
          (count_where (owned_by visitor) rows)
  update-IsMoved set g owner nv nt rows = record {
    counted = refl;
    emptied = (counts set g rows).0;
    arrived = (counts set g rows).1;
    others = others_kept set g owner nv nt rows;
  }

field-put_field :
    (key k : Str) (v : Option Str) (p : Payload)
    → field key (put_field k v p) ≡ (if str_eq k key then v else field key p)
unfolding field put_field
field-put_field key k v [] = refl
field-put_field key k v ((j, w) ∷ p) = elim (Bool-cases (str_eq j k)) [
  | inl same ↦ rw (same, (str_eq_iff j k).0 same) (ground arith)
  | inr other ↦
      ground (
        arith,
        field-put_field key k v p,
        other,
        str_eq_iff j key,
        str_eq_iff k key,
        str_eq_iff j k,
      )
]

-- The job names the tenant as its owner.
abbrev pub Names : Str → Job → Type 0
Names tenant job = field (codes "owner_id") job.payload ≡ some tenant

give_job-Names :
    (identity : RequestIdentity) (now : ℕ) (ids : List Str) (jobs : List Job)
    → All
        (Names identity.tenant_id)
        (keep_if (job_of ids) (update_where (job_of ids) (give_job identity now) jobs))
unfolding merge str_eq
give_job-Names identity now ids [] = tt
give_job-Names identity now ids (job ∷ jobs) =
    let rest = give_job-Names identity now ids jobs in
    let named : field (codes "owner_id") (give_job identity now job).payload
        ≡ some identity.tenant_id =
      field-put_field (codes "owner_id") (codes "actor_id") (some identity.actor_id)
        (put_field (codes "owner_id") (some identity.tenant_id) job.payload)
      ∙ field-put_field (codes "owner_id") (codes "owner_id") (some identity.tenant_id)
          job.payload in
    elim (Bool-cases (job_of ids job)) [
      | inl mine ↦ rw (mine, mine) (named, rest)
      | inr other ↦ rw (other, other) rest
    ]

other_jobs_kept :
    (test : Job → Bool) (set : Job → Job) (xs : List Job)
    → ((x : Job) → test (set x) ≡ test x)
    → keep_if (λ x. not (test x)) (update_where test set xs) ≡ keep_if (λ x. not (test x)) xs
other_jobs_kept test set [] kept = refl
other_jobs_kept test set (x ∷ xs) kept = elim (Bool-cases (test x)) [
  | inl mine ↦ rw (mine, kept x, mine) (other_jobs_kept test set xs kept)
  | inr other ↦ rw (other, other) (ap (λ ys. x ∷ ys) (other_jobs_kept test set xs kept))
]

-- An authenticated visitor's claim moves every document, session, query and batch of the visitor
-- to the tenant and reports how many, names the tenant in the jobs of those documents and reports
-- how many, leaves every job of another document as it was, and leaves the documents, sessions,
-- queries and batches of any third owner as they were.
pub claim_visitor_data_lem :
    (identity : RequestIdentity) (visitor owner : Str) (now : ℕ) (db : Database)
    → identity.visitor_id ≡ some visitor
    → identity.authenticated ≡ true
    → nonempty visitor ≡ true
    → str_eq visitor identity.tenant_id ≡ false
    → str_eq owner visitor ≡ false
    → str_eq owner identity.tenant_id ≡ false
    → let (db', claimed) = claim_visitor_data identity now db in
      let tenant = identity.tenant_id in
      let ids = tenant_document_ids visitor db in
      IsMoved visitor tenant owner db.documents db'.documents claimed.documents
      × IsMoved visitor tenant owner db.sessions db'.sessions claimed.sessions
      × IsMoved visitor tenant owner db.queries db'.queries claimed.queries
      × IsMoved visitor tenant owner db.batches db'.batches claimed.batches
      × All (Names tenant) (keep_if (job_of ids) db'.jobs)
      × (keep_if (λ j. not (job_of ids j)) db'.jobs ≡ keep_if (λ j. not (job_of ids j)) db.jobs)
      × (claimed.indexing_jobs ≡ count_where (job_of ids) db.jobs)
unfolding claim_visitor_data move_rows tenant_document_ids
claim_visitor_data_lem identity visitor owner now db known auth named differ nv nt =
    let moves : (set : Owned → Owned)
        → ((row : Owned) → (set row).owner_id ≡ identity.tenant_id)
        → (rows : List Owned)
        → IsMoved visitor identity.tenant_id owner rows (update_where (owned_by visitor) set rows)
            (count_where (owned_by visitor) rows) =
      λ set g rows. update-IsMoved visitor identity.tenant_id differ set g owner nv nt rows in
    rw (known, auth, named, differ)
      (
        moves (give identity (some now)) (λ row. refl) db.documents,
        moves (give identity (some now)) (λ row. refl) db.sessions,
        moves (give identity none) (λ row. refl) db.queries,
        moves (give identity (some now)) (λ row. refl) db.batches,
        give_job-Names identity now (tenant_document_ids visitor db) db.jobs,
        other_jobs_kept (job_of (tenant_document_ids visitor db)) (give_job identity now) db.jobs
            (λ j. refl),
        refl,
      )
