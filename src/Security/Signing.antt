-- ===== src/Security/Signing.antt =====
-- `sign_request` and `verify_request` of security.py, with the secret's and the maximal age's
-- checks. SHA-256 and HMAC are parameters, as functions from texts to hexadecimal digests.
use graphrag_agent.Base.{
  ℕ, ◌+◌, Bool, true, false, ◌&&◌, Option, none, some, List, [], ◌∷◌, ◌++◌, if◌then◌else◌, ltb, leb,
  ◌==◌, length,
}
use graphrag_agent.Base.Int.{ℤ, pos, negsuc, ◌-ℤ◌, ◌+ℤ◌}
use graphrag_agent.Base.Text.{
  Str, codes, str_eq, nonempty, strip, lower, upper, starts_with, join, drop_while, parse_int,
  utf8_length, is_ascii,
}
use graphrag_agent.Security.Errors.{
  Checked, passed, failed, ◌>>=◌, ◌>>◌, SecurityError, missing_authentication, invalid_timestamp,
  stale_request, invalid_nonce, body_mismatch, unsupported_version, invalid_signature,
  replayed_request, weak_secret, not_ascii,
}
use graphrag_agent.Security.Nonce.{Cache, Settings, consume}

-- The digests of hashlib and hmac over the UTF-8 bytes of a text.
pub record Digests : Type 0 where
  pub sha256 : Str → Str
  pub hmac_sha256 : Str → Str → Str

pub record Request : Type 0 where
  pub method : Str
  pub path : Str
  pub body : Str

abbrev pub Headers : Type 0
Headers = List (Str × Str)

abbrev pub timestamp_header : Str
timestamp_header = codes "X-LightRAG-Timestamp"

abbrev pub nonce_header : Str
nonce_header = codes "X-LightRAG-Nonce"

abbrev pub content_sha_header : Str
content_sha_header = codes "X-LightRAG-Content-SHA256"

abbrev pub signature_header : Str
signature_header = codes "X-LightRAG-Signature"

abbrev pub version_prefix : Str
version_prefix = codes "v1="

abbrev pub check : Bool → SecurityError → Checked (Unit {0})
check true e = passed tt
check false e = failed e

-- `_secret`: the configured text, stripped and long enough
unfoldable pub secret_value : Str → Checked Str
unfolding strip utf8_length
secret_value raw =
    if ltb (utf8_length (strip raw)) 32 then failed weak_secret else passed (strip raw)

unfoldable pub normalized_path : Str → Str
unfolding drop_while
normalized_path path = b'/' ∷ drop_while (λ c. c == b'/') path

unfoldable pub canonical : Request → Str → Str → Str → Str
unfolding join normalized_path upper
canonical r timestamp nonce content_sha =
    join (10 ∷ []) (upper r.method ∷ normalized_path r.path ∷ timestamp ∷ nonce ∷ content_sha ∷ [])

-- lowered.get(name.lower(), ""): a later header of the same name replaces an earlier one
unfoldable pub header_or : Str → Str → Headers → Str
header_or name found [] = found
header_or name found ((key, value) ∷ headers) =
    header_or name (if str_eq (lower key) (lower name) then strip value else found) headers

unfoldable pub header : Str → Headers → Str
unfolding header_or lower strip
header name headers = header_or name [] headers

-- The part behind the first "=".
unfoldable pub after_equals : Str → Str
after_equals [] = []
after_equals (c ∷ s) = if c == b'=' then s else after_equals s

abbrev pub abs : ℤ → ℕ
abs (pos n) = n
abs (negsuc n) = n + 1

-- max(30, min(value, 900)), where a missing argument is read from the environment
unfoldable pub clamp_age : ℤ → ℕ
clamp_age (negsuc n) = 30
clamp_age (pos n) = if ltb n 30 then 30 else if ltb 900 n then 900 else n

unfoldable pub max_age : Option ℤ → Str → ℕ
unfolding clamp_age parse_int
max_age (some value) configured = clamp_age value
max_age none configured = elim (parse_int configured) [
  | none ↦ clamp_age (pos 300)
  | some value ↦ clamp_age value
]

-- What a request that passed every check but the last still has to consume.
pub record Claim : Type 0 where
  pub nonce : Str
  pub timestamp : ℤ
  pub expires_at : ℤ

abbrev read_timestamp : Option ℤ → Checked ℤ
read_timestamp none = failed invalid_timestamp
read_timestamp (some t) = passed t

abbrev pub nonce_fits : Str → Bool
nonce_fits nonce = leb 12 (length nonce) && leb (length nonce) 128

abbrev pub signature_of : Digests → Str → Request → Str → Str → Str → Str
signature_of d key r timestamp nonce sha = d.hmac_sha256 key (canonical r timestamp nonce sha)

-- `verify_request` up to the replay cache
unfoldable pub authenticate : Digests → Str → ℕ → ℤ → Request → Headers → Checked Claim
authenticate d secret age current r headers = do
  let timestamp_value = header timestamp_header headers
  let nonce = header nonce_header headers
  let supplied_sha = header content_sha_header headers
  let supplied = header signature_header headers
  check (nonempty timestamp_value && nonempty nonce && nonempty supplied_sha && nonempty supplied)
      missing_authentication
  timestamp ← read_timestamp (parse_int timestamp_value)
  check (leb (abs (current -ℤ timestamp)) age) stale_request
  check (nonce_fits nonce) invalid_nonce
  check (is_ascii supplied_sha && is_ascii (d.sha256 r.body)) not_ascii
  check (str_eq (d.sha256 r.body) supplied_sha) body_mismatch
  check (starts_with supplied version_prefix) unsupported_version
  key ← secret_value secret
  check
      (is_ascii (after_equals supplied)
        && is_ascii (signature_of d key r timestamp_value nonce (d.sha256 r.body)))
      not_ascii
  check
      (str_eq (signature_of d key r timestamp_value nonce (d.sha256 r.body))
        (after_equals supplied))
      invalid_signature
  passed (record { nonce = nonce; timestamp = timestamp; expires_at = timestamp +ℤ pos age })

abbrev accept_if : Checked Bool → Checked (Unit {0})
accept_if (passed true) = passed tt
accept_if (passed false) = failed replayed_request
accept_if (failed e) = failed e

-- The last check: the nonce is consumed, once.
abbrev pub admit :
    Settings → Option Str → (Cache → Cache) → ℤ → Cache → Checked Claim → Cache × Checked (Unit {0})
admit s reply others current cache (failed e) = (cache, failed e)
admit s reply others current cache (passed c) =
    let (after, fresh) = consume s reply others c.nonce c.expires_at current cache in
    (after, accept_if fresh)

-- `verify_request`, for a replay cache
unfoldable pub verify_request :
    Digests
    → Settings
    → Option Str
    → (Cache → Cache)
    → Str
    → ℕ
    → ℤ
    → Request
    → Headers
    → Cache
    → Cache × Checked (Unit {0})
verify_request d s reply others secret age current r headers cache =
    admit s reply others current cache (authenticate d secret age current r headers)

-- `verify_request` where the caller gives no replay cache: only the checks before it are made.
unfoldable pub verify_uncached : Digests → Str → ℕ → ℤ → Request → Headers → Checked (Unit {0})
unfolding authenticate
verify_uncached d secret age current r headers = do
  claim ← authenticate d secret age current r headers
  passed tt

-- `sign_request`, for a nonce that the caller gives; the timestamp is its decimal text
unfoldable pub sign_request : Digests → Str → Request → Str → Str → Checked Headers
sign_request d secret r timestamp nonce = do
  check (nonce_fits nonce) invalid_nonce
  key ← secret_value secret
  passed (
      (timestamp_header, timestamp)
      ∷ (nonce_header, nonce)
      ∷ (content_sha_header, d.sha256 r.body)
      ∷ (signature_header, version_prefix ++ signature_of d key r timestamp nonce (d.sha256 r.body))
      ∷ [])
