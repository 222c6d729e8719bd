-- ===== src/Accounts/Repository.antt =====
-- `PostgresAccountRepository` of account_repository.py: identities, claims and audit. `now` is the
-- clock, as a number where a statement reads it and as a text in a payload.
use graphrag_agent.Base.{
  ℕ, Bool, not, ◌&&◌, ◌||◌, Option, none, some, List, [], ◌∷◌, ◌++◌, map, if◌then◌else◌, keep_if,
}
use graphrag_agent.Base.Text.{Str, codes, str_eq, elem, nonempty}
use graphrag_agent.Identity.Request.{RequestIdentity}
use graphrag_agent.Accounts.Tables.{
  Payload, merge, Owned, Job, Database, update_where, count_where, upsert,
}

abbrev pub account_payload : RequestIdentity → Str → Payload
account_payload identity stamp =
    (codes "user_id", some identity.actor_id) ∷ (codes "last_seen_at", some stamp) ∷ []

abbrev pub tenant_payload : RequestIdentity → Str → Payload
tenant_payload identity stamp =
    (codes "tenant_id", some identity.tenant_id)
    ∷ (codes "organization_id", identity.organization_id)
    ∷ (codes "organization_slug", identity.organization_slug)
    ∷ (codes "last_seen_at", some stamp)
    ∷ []

unfoldable pub sync_identity : RequestIdentity → ℕ → Str → Database → Database
unfolding str_eq merge
sync_identity identity now stamp db =
    let account = account_payload identity stamp in
    let tenant = tenant_payload identity stamp in
    let synced = record db {
      accounts =
          upsert (λ r. str_eq r.user_id identity.actor_id)
            (λ r. record r { payload = merge r.payload account; updated_at = now })
            (record { user_id = identity.actor_id; payload = account; updated_at = now })
            db.accounts;
      tenants =
          upsert (λ r. str_eq r.tenant_id identity.tenant_id)
            (λ r. record r {
              organization_id = identity.organization_id;
              slug = identity.organization_slug;
              payload = merge r.payload tenant;
              updated_at = now;
            })
            (record {
              tenant_id = identity.tenant_id;
              organization_id = identity.organization_id;
              slug = identity.organization_slug;
              payload = tenant;
              updated_at = now;
            })
            db.tenants;
      memberships =
          upsert (λ r. str_eq r.tenant_id identity.tenant_id && str_eq r.user_id identity.actor_id)
            (λ r. record r {
              role = identity.role;
              permissions = identity.permissions;
              updated_at = now;
            })
            (record {
              tenant_id = identity.tenant_id;
              user_id = identity.actor_id;
              role = identity.role;
              permissions = identity.permissions;
              updated_at = now;
            })
            db.memberships;
    } in
    if identity.authenticated then synced else db

pub record Claimed : Type 0 where
  pub documents : ℕ
  pub indexing_jobs : ℕ
  pub sessions : ℕ
  pub queries : ℕ
  pub batches : ℕ

abbrev pub nothing_claimed : Claimed
nothing_claimed = record {
  documents = 0;
  indexing_jobs = 0;
  sessions = 0;
  queries = 0;
  batches = 0;
}

abbrev pub owned_by : Str → Owned → Bool
owned_by owner row = str_eq row.owner_id owner

abbrev pub row_id : Owned → Str
row_id row = row.id

-- {"owner_id": ..., "actor_id": ...}
abbrev pub ownership : RequestIdentity → Payload
ownership identity =
    (codes "owner_id", some identity.tenant_id) ∷ (codes "actor_id", some identity.actor_id) ∷ []

-- SET owner_id, payload and, where the table has one, updated_at
abbrev pub give : RequestIdentity → Option ℕ → Owned → Owned
give identity none row = record row {
  owner_id = identity.tenant_id;
  payload = merge row.payload (ownership identity);
}
give identity (some now) row = record row {
  owner_id = identity.tenant_id;
  payload = merge row.payload (ownership identity);
  updated_at = now;
}

abbrev pub give_job : RequestIdentity → ℕ → Job → Job
give_job identity now job = record job {
  payload = merge job.payload (ownership identity);
  updated_at = now;
}

abbrev pub job_of : List Str → Job → Bool
job_of ids job = elem job.doc_id ids

-- The statements of claim_visitor_data, for the visitor's id.
unfoldable pub move_rows : RequestIdentity → Str → ℕ → Database → Database × Claimed
unfolding str_eq merge elem
move_rows identity visitor now db =
    let ids = map row_id (keep_if (owned_by visitor) db.documents) in
    (
      record db {
        documents = update_where (owned_by visitor) (give identity (some now)) db.documents;
        jobs = update_where (job_of ids) (give_job identity now) db.jobs;
        sessions = update_where (owned_by visitor) (give identity (some now)) db.sessions;
        queries = update_where (owned_by visitor) (give identity none) db.queries;
        batches = update_where (owned_by visitor) (give identity (some now)) db.batches;
      },
      record {
        documents = count_where (owned_by visitor) db.documents;
        indexing_jobs = count_where (job_of ids) db.jobs;
        sessions = count_where (owned_by visitor) db.sessions;
        queries = count_where (owned_by visitor) db.queries;
        batches = count_where (owned_by visitor) db.batches;
      },
    )

unfoldable pub claim_visitor_data : RequestIdentity → ℕ → Database → Database × Claimed
unfolding move_rows
claim_visitor_data identity now db = elim identity.visitor_id [
  | none ↦ (db, nothing_claimed)
  | some visitor ↦
      let moved = move_rows identity visitor now db in
      if not identity.authenticated || not (nonempty visitor) || str_eq visitor identity.tenant_id
      then (db, nothing_claimed)
      else moved
]

unfoldable pub record_audit : RequestIdentity → Str → Str → Payload → ℕ → Database → Database
record_audit identity event_type request_id payload now db =
    if identity.authenticated
    then record db {
      audit =
          db.audit
          ++ record {
            owner_id = identity.tenant_id;
            actor_id = identity.actor_id;
            tenant_id = identity.tenant_id;
            role = identity.role;
            request_id = request_id;
            event_type = event_type;
            payload = payload;
            created_at = now;
          }
            ∷ [];
    }
    else db
