-- ===== src/Security/RoundTrip.antt =====
-- A request that `sign_request` signs passes the checks of `verify_request`.
use graphrag_agent.Base.{ℕ, ◌≡◌, refl, true, some, [], ◌∷◌, ◌++◌, arith, inl, inr, leb, ◌∙◌}
use graphrag_agent.Base.Int.{ℤ, pos, ◌≤ℤ◌, ◌+ℤ◌, ◌-ℤ◌}
use graphrag_agent.Base.Text.{
  Str, str_eq, str_eq_refl, parse_int, starts_with, nonempty, Solid, strip, strip-Solid, is_space,
  is_ascii,
}
use graphrag_agent.Security.Errors.{passed, Checked-cases}
use graphrag_agent.Security.Signing.{
  Digests, Request, Headers, sign_request, authenticate, header, after_equals, secret_value, abs,
  signature_of, nonce_fits, timestamp_header, nonce_header, content_sha_header, signature_header,
  version_prefix,
}

-- What hashlib and hmac promise of a hexadecimal digest: no white space, ASCII, and a
-- SHA-256 is not empty.
pub record HexDigests (d : Digests) : Type 0 where
  pub sha256_solid : (s : Str) → Solid (d.sha256 s)
  pub sha256_nonempty : (s : Str) → nonempty (d.sha256 s) ≡ true
  pub hmac_solid : (key s : Str) → Solid (d.hmac_sha256 key s)
  pub sha256_ascii : (s : Str) → is_ascii (d.sha256 s) ≡ true
  pub hmac_ascii : (key s : Str) → is_ascii (d.hmac_sha256 key s) ≡ true

abbrev signed_headers : Str → Str → Str → Str → Headers
signed_headers timestamp nonce sha signature =
    (timestamp_header, timestamp)
    ∷ (nonce_header, nonce)
    ∷ (content_sha_header, sha)
    ∷ (signature_header, signature)
    ∷ []

module _ (timestamp nonce sha signature : Str) where
  header-timestamp :
      header timestamp_header (signed_headers timestamp nonce sha signature) ≡ strip timestamp
  unfolding header str_eq
  header-timestamp = refl

  header-nonce : header nonce_header (signed_headers timestamp nonce sha signature) ≡ strip nonce
  unfolding header str_eq
  header-nonce = refl

  header-sha : header content_sha_header (signed_headers timestamp nonce sha signature) ≡ strip sha
  unfolding header str_eq
  header-sha = refl

  header-signature :
      header signature_header (signed_headers timestamp nonce sha signature) ≡ strip signature
  unfolding header str_eq
  header-signature = refl

prefix-Solid : (s : Str) → Solid s → Solid (version_prefix ++ s)
unfolding is_space
prefix-Solid s h = (refl, (refl, (refl, h)))

version_starts : (s : Str) → starts_with (version_prefix ++ s) version_prefix ≡ true
unfolding starts_with
version_starts [] = refl
version_starts (c ∷ s) = refl

after_version : (s : Str) → after_equals (version_prefix ++ s) ≡ s
unfolding after_equals
after_version s = refl

abs_within : (a b : ℤ) (n : ℕ) → a ≤ℤ b +ℤ pos n → b ≤ℤ a +ℤ pos n → leb (abs (a -ℤ b)) n ≡ true
unfolding ◌-ℤ◌ ◌+ℤ◌
abs_within a b n h k = ground arith

nonce-nonempty : (nonce : Str) → nonce_fits nonce ≡ true → nonempty nonce ≡ true
nonce-nonempty [] h = ground arith
nonce-nonempty (c ∷ s) h = refl

signed_inv :
    (d : Digests) (secret : Str) (r : Request) (text nonce : Str) (h : Headers)
    → sign_request d secret r text nonce ≡ passed h
    → (key : Str) × (secret_value secret ≡ passed key)
      × (nonce_fits nonce ≡ true)
      × (h
          ≡ signed_headers text nonce
              (d.sha256 r.body)
              (version_prefix ++ signature_of d key r text nonce (d.sha256 r.body)))
unfolding sign_request
signed_inv d secret r text nonce h e = elim (Checked-cases (secret_value secret)) [
  | inl (key, k) ↦ (key, k, ground arith, ground arith)
  | inr (x, k) ↦ absurd (ground arith)
]

-- The checks, on headers of which the four values are known.
passes_checks :
    (d : Digests) (secret key : Str) (age : ℕ) (current : ℤ) (r : Request) (text : Str)
    (timestamp : ℤ) (nonce : Str) (h : Headers)
    → header timestamp_header h ≡ text
    → header nonce_header h ≡ nonce
    → header content_sha_header h ≡ d.sha256 r.body
    → header signature_header h
      ≡ version_prefix ++ signature_of d key r text nonce (d.sha256 r.body)
    → nonempty text ≡ true
    → nonempty (d.sha256 r.body) ≡ true
    → is_ascii (d.sha256 r.body) ≡ true
    → is_ascii (signature_of d key r text nonce (d.sha256 r.body)) ≡ true
    → nonce_fits nonce ≡ true
    → parse_int text ≡ some timestamp
    → leb (abs (current -ℤ timestamp)) age ≡ true
    → secret_value secret ≡ passed key
    → authenticate d secret age current r h
      ≡ passed (record { nonce = nonce; timestamp = timestamp; expires_at = timestamp +ℤ pos age })
unfolding authenticate
passes_checks d secret key age current r text timestamp nonce h ht hn hc hs ne ns sa ag fits p w k =
    rw (
      ht,
      hn,
      hc,
      hs,
      ne,
      nonce-nonempty nonce fits,
      ns,
      p,
      w,
      fits,
      sa,
      str_eq_refl (d.sha256 r.body),
      version_starts (signature_of d key r text nonce (d.sha256 r.body)),
      k,
      after_version (signature_of d key r text nonce (d.sha256 r.body)),
      ag,
      str_eq_refl (signature_of d key r text nonce (d.sha256 r.body)),
    )

-- What `sign_request` returns passes every check before the replay cache, under the same secret and
-- for the same request, at each clock within `age` of the timestamp, if the digests are
-- hexadecimal, the timestamp's text is a number and is not empty, and neither it nor the nonce has
-- white space; the claim carries the nonce, and expires `age` after the timestamp.
pub verify-sign_request :
    (d : Digests) (hex : HexDigests d) (secret : Str) (age : ℕ) (current : ℤ) (r : Request)
    (text : Str) (timestamp : ℤ) (nonce : Str) (h : Headers)
    → parse_int text ≡ some timestamp
    → nonempty text ≡ true
    → Solid text
    → Solid nonce
    → current ≤ℤ timestamp +ℤ pos age
    → timestamp ≤ℤ current +ℤ pos age
    → sign_request d secret r text nonce ≡ passed h
    → authenticate d secret age current r h
      ≡ passed (record { nonce = nonce; timestamp = timestamp; expires_at = timestamp +ℤ pos age })
verify-sign_request d hex secret age current r text timestamp nonce h p ne st sn late early signed =
    let (key, k, fits, eh) = signed_inv d secret r text nonce h signed in
    let sha : Str = d.sha256 r.body in
    let sig : Str = signature_of d key r text nonce sha in
    passes_checks d secret key age current r text timestamp nonce h
      (rw eh (header-timestamp text nonce sha (version_prefix ++ sig) ∙ strip-Solid text st))
      (rw eh (header-nonce text nonce sha (version_prefix ++ sig) ∙ strip-Solid nonce sn))
      (rw eh (
        header-sha text nonce sha (version_prefix ++ sig)
        ∙ strip-Solid sha (hex.sha256_solid r.body)))
      (rw eh (
        header-signature text nonce sha (version_prefix ++ sig)
        ∙ strip-Solid (version_prefix ++ sig) (prefix-Solid sig (hex.hmac_solid key _))))
      ne (hex.sha256_nonempty r.body) (hex.sha256_ascii r.body) (hex.hmac_ascii key _) fits p
      (abs_within current timestamp age late early) k
