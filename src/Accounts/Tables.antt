-- ===== src/Accounts/Tables.antt =====
-- The tables that the statements of account_repository.py read and write, and the statements' verbs.
-- Times are seconds. A payload is a JSON object, of which a statement reads only text values.
use graphrag_agent.Base.{ℕ, Bool, Option, none, List, [], ◌∷◌, if◌then◌else◌, keep_if, length}
use graphrag_agent.Base.Text.{Str, str_eq}

abbrev pub Payload : Type 0
Payload = List (Str × Option Str)

-- payload->>'key'
unfoldable pub field : Str → Payload → Option Str
field key [] = none
field key ((k, v) ∷ payload) = if str_eq k key then v else field key payload

unfoldable pub put_field : Str → Option Str → Payload → Payload
put_field key v [] = (key, v) ∷ []
put_field key v ((k, w) ∷ payload) =
    if str_eq k key then (k, v) ∷ payload else (k, w) ∷ put_field key v payload

-- payload || new
unfoldable pub merge : Payload → Payload → Payload
unfolding put_field
merge payload [] = payload
merge payload ((k, v) ∷ new) = merge (put_field k v payload) new

-- app_documents, chat_sessions, query_history and batch_qa_jobs
pub record Owned : Type 0 where
  pub id : Str
  pub owner_id : Str
  pub payload : Payload
  pub created_at : ℕ
  pub updated_at : ℕ

-- indexing_jobs
pub record Job : Type 0 where
  pub job_id : Str
  pub doc_id : Str
  pub payload : Payload
  pub updated_at : ℕ

pub record UsageEvent : Type 0 where
  pub event_id : Str
  pub tenant_id : Str
  pub user_id : Str
  pub operation : Str
  pub provider : Str
  pub model : Str
  pub input_tokens : ℕ
  pub output_tokens : ℕ
  pub cost_microcny : ℕ
  pub request_id : Str
  pub payload : Payload
  pub created_at : ℕ

-- audit_logs
pub record Audit : Type 0 where
  pub owner_id : Str
  pub actor_id : Str
  pub tenant_id : Str
  pub role : Str
  pub request_id : Str
  pub event_type : Str
  pub payload : Payload
  pub created_at : ℕ

pub record AccountProfile : Type 0 where
  pub user_id : Str
  pub payload : Payload
  pub updated_at : ℕ

pub record TenantProfile : Type 0 where
  pub tenant_id : Str
  pub organization_id : Option Str
  pub slug : Option Str
  pub payload : Payload
  pub updated_at : ℕ

pub record Membership : Type 0 where
  pub tenant_id : Str
  pub user_id : Str
  pub role : Str
  pub permissions : List Str
  pub updated_at : ℕ

pub record Database : Type 0 where
  pub documents : List Owned
  pub jobs : List Job
  pub sessions : List Owned
  pub queries : List Owned
  pub batches : List Owned
  pub usage : List UsageEvent
  pub audit : List Audit
  pub accounts : List AccountProfile
  pub tenants : List TenantProfile
  pub memberships : List Membership

module _ {A : Type 0} where
  -- UPDATE table SET ... WHERE ..., the rows; the row count is that of the rows that matched
  abbrev pub update_where : (A → Bool) → (A → A) → List A → List A
  update_where p set [] = []
  update_where p set (row ∷ rows) = (if p row then set row else row) ∷ update_where p set rows

  -- DELETE FROM table WHERE ...
  abbrev pub delete_where : (A → Bool) → List A → List A
  delete_where p [] = []
  delete_where p (row ∷ rows) = if p row then delete_where p rows else row ∷ delete_where p rows

  abbrev pub count_where : (A → Bool) → List A → ℕ
  count_where p rows = length (keep_if p rows)

  -- INSERT ... ON CONFLICT DO UPDATE: the row that conflicts is set, or the new one is added
  abbrev pub upsert : (A → Bool) → (A → A) → A → List A → List A
  upsert conflict set new [] = new ∷ []
  upsert conflict set new (row ∷ rows) =
      if conflict row then set row ∷ rows else row ∷ upsert conflict set new rows
