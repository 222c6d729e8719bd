-- ===== src/Accounts/Exports.antt =====
-- The exports of account_repository.py. An exported usage event or audit entry stands here with all
-- its columns, where the source selects some of them.
use graphrag_agent.Base.{
  Bool, true, false, not, ◌&&◌, Option, none, some, List, [], ◌∷◌, map, if◌then◌else◌, keep_if, leb,
}
use graphrag_agent.Base.Text.{Str, codes, str_eq, str_lt}
use graphrag_agent.Base.Sort.{sort_by}
use graphrag_agent.Identity.Request.{RequestIdentity}
use graphrag_agent.Accounts.Tables.{
  Payload, field, Owned, UsageEvent, Audit, AccountProfile, Database,
}
use graphrag_agent.Accounts.Repository.{owned_by, row_id}

abbrev pub has_payload : Owned → Bool
has_payload row = elim row.payload [ [] ↦ false | p ∷ rest ↦ true ]

abbrev pub payload_of : Owned → Payload
payload_of row = row.payload

abbrev pub id_le : Owned → Owned → Bool
id_le a b = not (str_lt b.id a.id)

-- `_payloads`
unfoldable pub payloads : Str → List Owned → List Payload
unfolding str_eq sort_by str_lt
payloads tenant rows =
    map payload_of (keep_if has_payload (sort_by id_le (keep_if (owned_by tenant) rows)))

abbrev pub usage_le : UsageEvent → UsageEvent → Bool
usage_le a b = leb a.created_at b.created_at

abbrev pub audit_le : Audit → Audit → Bool
audit_le a b = leb a.created_at b.created_at

abbrev pub created_le : Owned → Owned → Bool
created_le a b = leb a.created_at b.created_at

pub record TenantExport : Type 0 where
  pub documents : List Payload
  pub sessions : List Payload
  pub queries : List Payload
  pub batches : List Payload
  pub usage : List UsageEvent
  pub audit : List Audit

unfoldable pub export_tenant : Str → Database → TenantExport
unfolding payloads sort_by str_eq
export_tenant tenant db = record {
  documents = payloads tenant db.documents;
  sessions = payloads tenant db.sessions;
  queries = payloads tenant db.queries;
  batches = payloads tenant db.batches;
  usage = sort_by usage_le (keep_if (λ r. str_eq r.tenant_id tenant) db.usage);
  audit = sort_by audit_le (keep_if (λ r. str_eq r.tenant_id tenant) db.audit);
}

pub record UserExport : Type 0 where
  pub account : Payload
  pub sessions : List Payload
  pub queries : List Payload
  pub batches : List Payload
  pub usage : List UsageEvent
  pub audit : List Audit

abbrev pub is_text : Option Str → Str → Bool
is_text none s = false
is_text (some t) s = str_eq t s

-- owner_id = tenant AND payload->>'actor_id' = actor
abbrev pub written_by : RequestIdentity → Owned → Bool
written_by identity row =
    owned_by identity.tenant_id row
    && is_text (field (codes "actor_id") row.payload) identity.actor_id

unfoldable pub user_payloads : RequestIdentity → List Owned → List Payload
unfolding str_eq field sort_by
user_payloads identity rows =
    map payload_of (keep_if has_payload (sort_by created_le (keep_if (written_by identity) rows)))

unfoldable pub account_of : Str → List AccountProfile → Payload
unfolding str_eq
account_of user [] = []
account_of user (row ∷ rows) = if str_eq row.user_id user then row.payload else account_of user rows

unfoldable pub export_user : RequestIdentity → Database → UserExport
unfolding user_payloads account_of sort_by str_eq
export_user identity db = record {
  account = account_of identity.actor_id db.accounts;
  sessions = user_payloads identity db.sessions;
  queries = user_payloads identity db.queries;
  batches = user_payloads identity db.batches;
  usage = sort_by usage_le (keep_if (λ r. str_eq r.user_id identity.actor_id) db.usage);
  audit = sort_by audit_le (keep_if (λ r. str_eq r.actor_id identity.actor_id) db.audit);
}

unfoldable pub tenant_document_ids : Str → Database → List Str
unfolding str_eq
tenant_document_ids tenant db = map row_id (keep_if (owned_by tenant) db.documents)
