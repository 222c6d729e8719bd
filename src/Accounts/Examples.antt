-- ===== src/Accounts/Examples.antt =====
-- The account repository's theorems on a small database.
use graphrag_agent.Base.{◌≤◌, ◌≡◌, refl, true, none, some, [], ◌∷◌, keep_if, not, All}
use graphrag_agent.Base.Int.{negsuc}
use graphrag_agent.Base.Text.{Str, codes, str_eq}
use graphrag_agent.Identity.Request.{RequestIdentity}
use graphrag_agent.Accounts.Tables.{Owned, UsageEvent, Database, count_where}
use graphrag_agent.Accounts.Repository.{claim_visitor_data, job_of}
use graphrag_agent.Accounts.Exports.{export_tenant, export_user, tenant_document_ids}
use graphrag_agent.Accounts.Erasure.{delete_tenant_data, delete_personal_data}
use graphrag_agent.Accounts.Usage.{usage_summary}
use graphrag_agent.Accounts.Claim.{IsMoved, Names, claim_visitor_data_lem}
use graphrag_agent.Accounts.Deletion.{
  nothing_exported, nothing_left, delete_tenant_data_lem, delete_personal_data_lem,
}
use graphrag_agent.Accounts.Totals.{added, usage_summary-total}

abbrev member : Str → RequestIdentity
member user = record {
  authenticated = true;
  actor_id = user;
  tenant_id = codes "org_1";
  role = codes "member";
  visitor_id = some (codes "v1");
  organization_id = some (codes "org_1");
  organization_slug = none;
  session_id = none;
  permissions = [];
}

abbrev ann : RequestIdentity
ann = member (codes "ann")

abbrev bob : RequestIdentity
bob = member (codes "bob")

abbrev row : Str → Str → Owned
row id owner = record {
  id = id;
  owner_id = owner;
  payload = (codes "actor_id", some (codes "ann")) ∷ [];
  created_at = 5;
  updated_at = 5;
}

abbrev spent : UsageEvent
spent = record {
  event_id = codes "use_1";
  tenant_id = codes "org_1";
  user_id = codes "ann";
  operation = codes "query";
  provider = codes "p";
  model = codes "m";
  input_tokens = 10;
  output_tokens = 3;
  cost_microcny = 7;
  request_id = codes "r";
  payload = [];
  created_at = 90;
}

abbrev small : Database
small = record {
  documents = row (codes "d1") (codes "v1") ∷ row (codes "d2") (codes "org_2") ∷ [];
  jobs = record { job_id = codes "j1"; doc_id = codes "d1"; payload = []; updated_at = 5 } ∷ [];
  sessions = row (codes "s1") (codes "v1") ∷ row (codes "s2") (codes "org_1") ∷ [];
  queries = [];
  batches = [];
  usage = spent ∷ record spent { cost_microcny = 1 } ∷ [];
  audit = [];
  accounts = [];
  tenants = [];
  memberships = [];
}

claim_visitor_data_lem_example :
    let (db', claimed) = claim_visitor_data ann 100 small in
    let v1 = codes "v1" in
    let org_1 = codes "org_1" in
    let org_2 = codes "org_2" in
    IsMoved v1 org_1 org_2 small.documents db'.documents claimed.documents
    × IsMoved v1 org_1 org_2 small.sessions db'.sessions claimed.sessions
    × IsMoved v1 org_1 org_2 small.queries db'.queries claimed.queries
    × IsMoved v1 org_1 org_2 small.batches db'.batches claimed.batches
    × All (Names org_1) (keep_if (job_of (tenant_document_ids v1 small)) db'.jobs)
    × (keep_if (λ j. not (job_of (tenant_document_ids v1 small) j)) db'.jobs
        ≡ keep_if (λ j. not (job_of (tenant_document_ids v1 small) j)) small.jobs)
    × (claimed.indexing_jobs ≡ count_where (job_of (tenant_document_ids v1 small)) small.jobs)
unfolding str_eq
claim_visitor_data_lem_example =
    claim_visitor_data_lem ann (codes "v1") (codes "org_2") 100 small refl refl refl refl refl refl

delete_tenant_data_lem_example :
    let db' = (delete_tenant_data (codes "v1") small).0 in
    (export_tenant (codes "v1") db' ≡ nothing_exported)
    × (export_tenant (codes "org_2") db' ≡ export_tenant (codes "org_2") small)
    × (keep_if (job_of (tenant_document_ids (codes "v1") small)) db'.jobs ≡ [])
unfolding str_eq
delete_tenant_data_lem_example = delete_tenant_data_lem (codes "v1") (codes "org_2") small refl

delete_personal_data_lem_example :
    let db' = (delete_personal_data ann small).0 in
    (export_user ann db' ≡ nothing_left) × (export_user bob db' ≡ export_user bob small)
unfolding str_eq
delete_personal_data_lem_example = delete_personal_data_lem ann bob small refl

usage_summary-total_example :
    let s = usage_summary (codes "org_1") none (negsuc 4) 100 small in
    (added s.breakdown ≡ s.total) × (1 ≤ s.days) × (s.days ≤ 366)
usage_summary-total_example = usage_summary-total (codes "org_1") none (negsuc 4) 100 small
