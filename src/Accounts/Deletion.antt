-- ===== src/Accounts/Deletion.antt =====
-- What the deletions of account_repository.py leave.
use graphrag_agent.Base.{
  ◌≡◌, refl, Bool, true, false, ◌&&◌, Option, none, some, List, [], ◌∷◌, keep_if, arith, Bool-cases,
  inl, inr,
}
use graphrag_agent.Base.Text.{Str, codes, str_eq, str_eq_iff}
use graphrag_agent.Identity.Request.{RequestIdentity}
use graphrag_agent.Accounts.Tables.{
  Owned, UsageEvent, Audit, Database, AccountProfile, field, delete_where,
}
use graphrag_agent.Accounts.Repository.{owned_by, job_of}
use graphrag_agent.Accounts.Exports.{
  tenant_document_ids, TenantExport, UserExport, export_tenant, export_user, payloads,
  user_payloads, written_by, account_of, is_text,
}
use graphrag_agent.Accounts.Erasure.{delete_tenant_data, delete_personal_data}

module _ {A : Type 0} where
  -- What a deletion's test finds is gone.
  gone : (p : A → Bool) (rows : List A) → keep_if p (delete_where p rows) ≡ []
  gone p [] = refl
  gone p (row ∷ rows) = elim (Bool-cases (p row)) [
    | inl e ↦ rw e (gone p rows)
    | inr e ↦ rw (e, e) (gone p rows)
  ]

  -- What another test finds stays, if no row passes both.
  stays :
      (p q : A → Bool)
      → ((row : A) → p row ≡ true → q row ≡ false)
      → (rows : List A) → keep_if q (delete_where p rows) ≡ keep_if q rows
  stays p q apart [] = refl
  stays p q apart (row ∷ rows) = elim (Bool-cases (p row)) [
    | inl e ↦ rw (e, apart row e) (stays p q apart rows)
    | inr e ↦ rw (e, stays p q apart rows) refl
  ]

str_eq_apart : (a b c : Str) → str_eq b c ≡ false → str_eq a b ≡ true → str_eq a c ≡ false
str_eq_apart a b c differ h = rw ((str_eq_iff a b).0 h) differ

abbrev pub nothing_exported : TenantExport
nothing_exported = record {
  documents = [];
  sessions = [];
  queries = [];
  batches = [];
  usage = [];
  audit = [];
}

payloads_gone :
    (tenant : Str) (rows : List Owned) → payloads tenant (delete_where (owned_by tenant) rows) ≡ []
unfolding payloads
payloads_gone tenant rows = rw (gone (owned_by tenant) rows) refl

payloads_stay :
    (tenant other : Str) (rows : List Owned)
    → str_eq tenant other ≡ false
    → payloads other (delete_where (owned_by tenant) rows) ≡ payloads other rows
unfolding payloads
payloads_stay tenant other rows differ =
    rw
      (stays (owned_by tenant) (owned_by other)
        (λ row h. str_eq_apart row.owner_id tenant other differ h) rows)
      refl

-- After a tenant's deletion its export is empty, the export of every other tenant is what it was,
-- and no job of a document that the tenant had is left.
pub delete_tenant_data_lem :
    (tenant other : Str) (db : Database)
    → str_eq tenant other ≡ false
    → let db' = (delete_tenant_data tenant db).0 in
      (export_tenant tenant db' ≡ nothing_exported)
      × (export_tenant other db' ≡ export_tenant other db)
      × (keep_if (job_of (tenant_document_ids tenant db)) db'.jobs ≡ [])
unfolding delete_tenant_data export_tenant
delete_tenant_data_lem tenant other db differ = (
  rw
      (
        payloads_gone tenant db.documents,
        payloads_gone tenant db.sessions,
        payloads_gone tenant db.queries,
        payloads_gone tenant db.batches,
        gone (λ (r : UsageEvent). str_eq r.tenant_id tenant) db.usage,
        gone (λ (r : Audit). str_eq r.tenant_id tenant) db.audit,
      )
      refl,
  rw
      (
        payloads_stay tenant other db.documents differ,
        payloads_stay tenant other db.sessions differ,
        payloads_stay tenant other db.queries differ,
        payloads_stay tenant other db.batches differ,
        stays (λ (r : UsageEvent). str_eq r.tenant_id tenant) (λ r. str_eq r.tenant_id other)
            (λ r h. str_eq_apart r.tenant_id tenant other differ h) db.usage,
        stays (λ (r : Audit). str_eq r.tenant_id tenant) (λ r. str_eq r.tenant_id other)
            (λ r h. str_eq_apart r.tenant_id tenant other differ h) db.audit,
      )
      refl,
  gone (job_of (tenant_document_ids tenant db)) db.jobs,
)

user_payloads_gone :
    (identity : RequestIdentity) (rows : List Owned)
    → user_payloads identity (delete_where (written_by identity) rows) ≡ []
unfolding user_payloads
user_payloads_gone identity rows = rw (gone (written_by identity) rows) refl

text_apart :
    (author : Option Str) (a b : Str) (p q : Bool)
    → str_eq a b ≡ false
    → (p && is_text author a) ≡ true
    → (q && is_text author b) ≡ false
text_apart none a b p q differ k = ground (arith, k)
text_apart (some t) a b p q differ k = ground (arith, k, str_eq_apart t a b differ)

-- The authors differ.
written_apart :
    (identity other : RequestIdentity)
    → str_eq identity.actor_id other.actor_id ≡ false
    → (row : Owned) → written_by identity row ≡ true
    → written_by other row ≡ false
written_apart identity other differ row h =
    text_apart (field (codes "actor_id") row.payload) identity.actor_id other.actor_id
      (owned_by identity.tenant_id row) (owned_by other.tenant_id row) differ h

user_payloads_stay :
    (identity other : RequestIdentity) (rows : List Owned)
    → str_eq identity.actor_id other.actor_id ≡ false
    → user_payloads other (delete_where (written_by identity) rows) ≡ user_payloads other rows
unfolding user_payloads
user_payloads_stay identity other rows differ =
    rw (stays (written_by identity) (written_by other) (written_apart identity other differ) rows)
      refl

account_gone :
    (user : Str) (rows : List AccountProfile)
    → account_of user (delete_where (λ r. str_eq r.user_id user) rows) ≡ []
unfolding account_of
account_gone user [] = refl
account_gone user (row ∷ rows) = elim (Bool-cases (str_eq row.user_id user)) [
  | inl e ↦ rw e (account_gone user rows)
  | inr e ↦ rw (e, e) (account_gone user rows)
]

account_stays :
    (user other : Str) (rows : List AccountProfile)
    → str_eq user other ≡ false
    → account_of other (delete_where (λ r. str_eq r.user_id user) rows) ≡ account_of other rows
unfolding account_of
account_stays user other [] differ = refl
account_stays user other (row ∷ rows) differ = elim (Bool-cases (str_eq row.user_id user)) [
  | inl e ↦
      rw (e, str_eq_apart row.user_id user other differ e) (account_stays user other rows differ)
  | inr e ↦ rw (e, account_stays user other rows differ) refl
]

abbrev pub nothing_left : UserExport
nothing_left = record {
  account = [];
  sessions = [];
  queries = [];
  batches = [];
  usage = [];
  audit = [];
}

-- After a user's deletion of personal data the user's export is empty, and the export of every
-- other user, of the same tenant or not, is what it was.
pub delete_personal_data_lem :
    (identity other : RequestIdentity) (db : Database)
    → str_eq identity.actor_id other.actor_id ≡ false
    → let db' = (delete_personal_data identity db).0 in
      (export_user identity db' ≡ nothing_left) × (export_user other db' ≡ export_user other db)
unfolding delete_personal_data export_user
delete_personal_data_lem identity other db differ = (
  rw
      (
        account_gone identity.actor_id db.accounts,
        user_payloads_gone identity db.sessions,
        user_payloads_gone identity db.queries,
        user_payloads_gone identity db.batches,
        gone (λ (r : UsageEvent). str_eq r.user_id identity.actor_id) db.usage,
        gone (λ (r : Audit). str_eq r.actor_id identity.actor_id) db.audit,
      )
      refl,
  rw
      (
        account_stays identity.actor_id other.actor_id db.accounts differ,
        user_payloads_stay identity other db.sessions differ,
        user_payloads_stay identity other db.queries differ,
        user_payloads_stay identity other db.batches differ,
        stays (λ (r : UsageEvent). str_eq r.user_id identity.actor_id)
            (λ r. str_eq r.user_id other.actor_id)
            (λ r h. str_eq_apart r.user_id identity.actor_id other.actor_id differ h) db.usage,
        stays (λ (r : Audit). str_eq r.actor_id identity.actor_id)
            (λ r. str_eq r.actor_id other.actor_id)
            (λ r h. str_eq_apart r.actor_id identity.actor_id other.actor_id differ h) db.audit,
      )
      refl,
)
