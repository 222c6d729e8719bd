-- ===== src/Security/Errors.antt =====
-- The failures that security.py raises, one constructor for each `raise` and one for the TypeError
-- of `hmac.compare_digest` on text outside ASCII; and results that carry them.
use graphrag_agent.Base.{◌≡◌, refl, ◌⊎◌, inl, inr}

pub data SecurityError : Type 0 where
  missing_authentication : SecurityError
  invalid_timestamp : SecurityError
  stale_request : SecurityError
  invalid_nonce : SecurityError
  body_mismatch : SecurityError
  unsupported_version : SecurityError
  invalid_signature : SecurityError
  replayed_request : SecurityError
  weak_secret : SecurityError
  not_ascii : SecurityError
  nonce_storage_required : SecurityError
  nonce_storage_incomplete : SecurityError
  nonce_storage_unavailable : SecurityError

-- What a check that may raise leaves: its value, or the failure.
pub data Checked {ℓ} (V : Type ℓ) : Type ℓ where
  failed : SecurityError → Checked V
  passed : V → Checked V

-- The first failure ends a method.
infixl 5 ◌>>◌ ◌>>=◌
abbrev pub ◌>>◌ {ℓ} : {W : Type ℓ} → Checked (Unit {0}) → Checked W → Checked W
failed why >> next = failed why
passed done >> next = next

abbrev pub ◌>>=◌ {ℓ κ} : {V : Type ℓ} → {W : Type κ} → Checked V → (V → Checked W) → Checked W
failed why >>= next = failed why
passed v >>= next = next v

pub Checked-cases {ℓ} :
    {A : Type ℓ} (r : Checked A)
    → ((a : A) × (r ≡ passed a)) ⊎ ((e : SecurityError) × (r ≡ failed e))
Checked-cases (passed a) = inl (a, refl)
Checked-cases (failed e) = inr (e, refl)
