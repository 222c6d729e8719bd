-- ===== src/Application/Rows.antt =====
-- The rows that FileAppRepository of app_repository.py keeps for their owners: chat sessions and
-- batches, each under an id. file_store.py holds them in a table.
use graphrag_agent.Base.{Option, none, some, List, [], ◌∷◌, if◌then◌else◌, keep_if}
use graphrag_agent.Base.Text.{Str, codes, str_eq, or_else}

-- A kind of row: its id, its owner, and the row with another owner.
pub record Kind {ℓ} (A : Type ℓ) : Type ℓ where
  pub key : A → Str
  pub owner : A → Str
  pub with_owner : Str → A → A

-- LEGACY_OWNER_ID
abbrev pub legacy_owner_id : Str
legacy_owner_id = codes "default"

module _ {ℓ} {A : Type ℓ} (K : Kind A) where
  -- `_owner_id`
  abbrev pub owner_id : A → Str
  owner_id row = or_else (K.owner row) legacy_owner_id

  -- `load_batch_meta` and `get_chat_session` of file_store.py
  unfoldable pub fetch : Str → List A → Option A
  fetch id [] = none
  fetch id (row ∷ rows) = if str_eq (K.key row) id then some row else fetch id rows

  -- `save_batch_meta` and `save_chat_session` of file_store.py
  unfoldable pub store : A → List A → List A
  store new [] = new ∷ []
  store new (row ∷ rows) =
      if str_eq (K.key row) (K.key new) then new ∷ rows else row ∷ store new rows

  abbrev pub store_over : Option A → A → List A → List A
  store_over none new rows = store new rows
  store_over (some old) new rows =
      if str_eq (owner_id old) (K.owner new) then store new rows else rows

  -- `save_batch_meta` and `save_chat_session`: a row of another owner is not written over
  unfoldable pub save : A → List A → List A
  unfolding fetch store str_eq
  save row rows =
      let new = K.with_owner (owner_id row) row in store_over (fetch (K.key row) rows) new rows

  abbrev pub if_owned : Str → Option A → Option A
  if_owned owner none = none
  if_owned owner (some row) = if str_eq (owner_id row) owner then some row else none

  -- `load_batch_meta` and `get_chat_session`
  unfoldable pub load : Str → Str → List A → Option A
  unfolding fetch str_eq
  load id owner rows = if_owned owner (fetch id rows)

  -- `list_batch_metas` and `list_chat_sessions`
  abbrev pub list_owned : Str → List A → List A
  list_owned owner rows = keep_if (λ row. str_eq (owner_id row) owner) rows
