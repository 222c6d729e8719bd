-- ===== src/Accounts/Erasure.antt =====
-- The deletions of account_repository.py.
use graphrag_agent.Base.{ℕ}
use graphrag_agent.Base.Text.{Str, str_eq, elem}
use graphrag_agent.Identity.Request.{RequestIdentity}
use graphrag_agent.Accounts.Tables.{field, Database, delete_where, count_where}
use graphrag_agent.Accounts.Repository.{owned_by, job_of}
use graphrag_agent.Accounts.Exports.{written_by, tenant_document_ids}

pub record PersonalDeleted : Type 0 where
  pub queries : ℕ
  pub batches : ℕ
  pub sessions : ℕ
  pub usage_events : ℕ
  pub audit_events : ℕ
  pub memberships : ℕ
  pub account_profiles : ℕ

unfoldable pub delete_personal_data : RequestIdentity → Database → Database × PersonalDeleted
unfolding str_eq field
delete_personal_data identity db = (
  record db {
    queries = delete_where (written_by identity) db.queries;
    batches = delete_where (written_by identity) db.batches;
    sessions = delete_where (written_by identity) db.sessions;
    usage = delete_where (λ r. str_eq r.user_id identity.actor_id) db.usage;
    audit = delete_where (λ r. str_eq r.actor_id identity.actor_id) db.audit;
    memberships = delete_where (λ r. str_eq r.user_id identity.actor_id) db.memberships;
    accounts = delete_where (λ r. str_eq r.user_id identity.actor_id) db.accounts;
  },
  record {
    queries = count_where (written_by identity) db.queries;
    batches = count_where (written_by identity) db.batches;
    sessions = count_where (written_by identity) db.sessions;
    usage_events = count_where (λ r. str_eq r.user_id identity.actor_id) db.usage;
    audit_events = count_where (λ r. str_eq r.actor_id identity.actor_id) db.audit;
    memberships = count_where (λ r. str_eq r.user_id identity.actor_id) db.memberships;
    account_profiles = count_where (λ r. str_eq r.user_id identity.actor_id) db.accounts;
  },
)

pub record TenantDeleted : Type 0 where
  pub indexing_jobs : ℕ
  pub queries : ℕ
  pub batches : ℕ
  pub sessions : ℕ
  pub documents : ℕ
  pub usage_events : ℕ
  pub audit_events : ℕ
  pub memberships : ℕ
  pub tenant_profiles : ℕ

unfoldable pub delete_tenant_data : Str → Database → Database × TenantDeleted
unfolding str_eq tenant_document_ids elem
delete_tenant_data tenant db =
    let ids = tenant_document_ids tenant db in
    (
      record db {
        jobs = delete_where (job_of ids) db.jobs;
        queries = delete_where (owned_by tenant) db.queries;
        batches = delete_where (owned_by tenant) db.batches;
        sessions = delete_where (owned_by tenant) db.sessions;
        documents = delete_where (owned_by tenant) db.documents;
        usage = delete_where (λ r. str_eq r.tenant_id tenant) db.usage;
        audit = delete_where (λ r. str_eq r.tenant_id tenant) db.audit;
        memberships = delete_where (λ r. str_eq r.tenant_id tenant) db.memberships;
        tenants = delete_where (λ r. str_eq r.tenant_id tenant) db.tenants;
      },
      record {
        indexing_jobs = count_where (job_of ids) db.jobs;
        queries = count_where (owned_by tenant) db.queries;
        batches = count_where (owned_by tenant) db.batches;
        sessions = count_where (owned_by tenant) db.sessions;
        documents = count_where (owned_by tenant) db.documents;
        usage_events = count_where (λ r. str_eq r.tenant_id tenant) db.usage;
        audit_events = count_where (λ r. str_eq r.tenant_id tenant) db.audit;
        memberships = count_where (λ r. str_eq r.tenant_id tenant) db.memberships;
        tenant_profiles = count_where (λ r. str_eq r.tenant_id tenant) db.tenants;
      },
    )
