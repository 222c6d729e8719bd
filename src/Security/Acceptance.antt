-- ===== src/Security/Acceptance.antt =====
-- What an accepted request satisfies, that it is not accepted a second time, and that a signed
-- request is accepted.
use graphrag_agent.Base.{
  ℕ, ◌≡◌, ◌≢◌, refl, true, Option, some, List, [], ◌∷◌, arith, leb, inl, inr, sym, ◌∙◌, ◌≤◌, ◌++◌,
  length, ◌==◌, ltb, ap, Bool-cases,
}
use graphrag_agent.Base.Int.{ℤ, pos, ◌≤ℤ◌, ◌+ℤ◌, ◌-ℤ◌}
use graphrag_agent.Base.Text.{
  Str, str_eq_iff, parse_int, upper, drop_while, strip, utf8_length, join,
}
use graphrag_agent.Security.Errors.{replayed_request, Checked, passed, failed, Checked-cases}
use graphrag_agent.Security.Fence.{
  Event, run, ClocksUpTo, held, held→holds, held-purge, held-run, finish-held, begins, finishes,
}
use graphrag_agent.Security.Nonce.{purge, Cache, Settings, consume}
use graphrag_agent.Security.Signing.{
  admit, Digests, Request, Headers, Claim, authenticate, verify_request, header, after_equals,
  canonical, secret_value, signature_of, abs, timestamp_header, nonce_header, content_sha_header,
  signature_header, normalized_path,
}

abbrev line_break : Str
line_break = 10 ∷ []

-- What a signature covers: the method in capitals, the path with one slash in front, the timestamp,
-- the nonce and the body's digest, with a line break between each two.
abbrev pub signed_text : Digests → Request → Headers → Str
signed_text d r h =
    let path = b'/' ∷ drop_while (λ c. c == b'/') r.path in
    upper r.method
    ++ line_break
    ++ (path
        ++ line_break
        ++ (header timestamp_header h
            ++ line_break
            ++ (header nonce_header h ++ line_break ++ d.sha256 r.body)))

pub record IsAuthentic (d : Digests) (secret : Str) (age : ℕ) (current : ℤ) (r : Request)
    (h : Headers) (c : Claim) : Type 0 where
  pub nonce : c.nonce ≡ header nonce_header h
  pub timestamp : parse_int (header timestamp_header h) ≡ some c.timestamp
  pub expires_at : c.expires_at ≡ c.timestamp +ℤ pos age
  pub not_late : current ≤ℤ c.expires_at
  pub not_early : c.timestamp ≤ℤ current +ℤ pos age
  pub nonce_length : (12 ≤ length c.nonce) × (length c.nonce ≤ 128)
  pub secret_length : 32 ≤ utf8_length (strip secret)
  pub body : header content_sha_header h ≡ d.sha256 r.body
  pub signature :
      after_equals (header signature_header h) ≡ d.hmac_sha256 (strip secret) (signed_text d r h)

abs_window : (a b : ℤ) (n : ℕ) → leb (abs (a -ℤ b)) n ≡ true → (a ≤ℤ b +ℤ pos n) × (b ≤ℤ a +ℤ pos n)
unfolding ◌-ℤ◌ ◌+ℤ◌
abs_window a b n h = ground arith

secret_value-passed :
    (raw key : Str)
    → secret_value raw ≡ passed key
    → (key ≡ strip raw) × (32 ≤ utf8_length (strip raw))
unfolding secret_value
secret_value-passed raw key h = elim (Bool-cases (ltb (utf8_length (strip raw)) 32)) [
  | inl short ↦ absurd (ground (arith, h, short))
  | inr long ↦ (ground (arith, h, long), ground (arith, long))
]

canonical-signed_text :
    (d : Digests) (r : Request) (h : Headers)
    → canonical r (header timestamp_header h) (header nonce_header h) (d.sha256 r.body)
      ≡ signed_text d r h
unfolding canonical normalized_path join
canonical-signed_text d r h = refl

-- A request passes the checks before the replay cache only if its timestamp lies within `age` of
-- the clock on both sides, its nonce has from 12 to 128 characters, its content digest is that of the
-- body, the configured secret without the spaces around it has at least 32 bytes, and its
-- signature is the one that this secret gives for the method, the path, the timestamp, the nonce
-- and the body's digest.
pub authenticate-IsAuthentic :
    (d : Digests) (secret : Str) (age : ℕ) (current : ℤ) (r : Request) (h : Headers) (c : Claim)
    → authenticate d secret age current r h ≡ passed c
    → IsAuthentic d secret age current r h c
unfolding authenticate
authenticate-IsAuthentic d secret age current r h c e = record {
  nonce = ground arith;
  timestamp = ground arith;
  expires_at = ground arith;
  not_late = ground (arith, abs_window current c.timestamp age);
  not_early = ground (arith, abs_window current c.timestamp age);
  nonce_length = ground arith;
  body = ground (arith, str_eq_iff (d.sha256 r.body) (header content_sha_header h));
  secret_length = elim (Checked-cases (secret_value secret)) [
    | inl (key, k) ↦ (secret_value-passed secret key k).1
    | inr (x, k) ↦ absurd (ground arith)
  ];
  signature = elim (Checked-cases (secret_value secret)) [
    | inl (key, k) ↦
        let signed : after_equals (header signature_header h)
            ≡ d.hmac_sha256 key (
                canonical r (header timestamp_header h) (header nonce_header h) (d.sha256 r.body)) =
          ground (
            arith,
            str_eq_iff
                (signature_of d key r (header timestamp_header h) (header nonce_header h)
                  (d.sha256 r.body))
                (after_equals (header signature_header h)),
          ) in
        signed
        ∙ ap
            (λ x.
              d.hmac_sha256 x
                (canonical r (header timestamp_header h) (header nonce_header h) (d.sha256 r.body)))
            (secret_value-passed secret key k).0
        ∙ ap (d.hmac_sha256 (strip secret)) (canonical-signed_text d r h)
    | inr (x, k) ↦ absurd (ground arith)
  ];
}

accepted_claim :
    (s : Settings) (reply : Option Str) (others : Cache → Cache) (current : ℤ) (cache after : Cache)
    (a : Checked Claim)
    → admit s reply others current cache a ≡ (after, passed tt)
    → (c : Claim) × (a ≡ passed c) × (held c.nonce c.expires_at after ≡ true)
unfolding consume
accepted_claim s reply others current cache after (failed x) e = absurd (ground arith)
accepted_claim s reply others current cache after (passed c) e =
    (c, refl, ground (arith, finish-held c.nonce c.expires_at (others (purge current cache))))

held_refused :
    (s : Settings) (reply : Option Str) (others : Cache → Cache) (current : ℤ) (cache : Cache)
    (c : Claim)
    → current ≤ℤ c.expires_at
    → held c.nonce c.expires_at cache ≡ true
    → (admit s reply others current cache (passed c)).1 ≡ failed replayed_request
unfolding consume
held_refused s reply others current cache c le h = ground (
  arith,
  held→holds c.nonce c.expires_at (purge current cache)
      (held-purge c.nonce c.expires_at current cache le h),
)

ClocksUpTo-mono :
    (a b : ℤ) (events : List Event) → a ≤ℤ b → ClocksUpTo a events → ClocksUpTo b events
ClocksUpTo-mono a b [] h c = tt
ClocksUpTo-mono a b (begins n now ∷ events) h c = (omega arith, ClocksUpTo-mono a b events h c.1)
ClocksUpTo-mono a b (finishes n e ∷ events) h c = ClocksUpTo-mono a b events h c

module _ (d : Digests) (s : Settings) (reply : Option Str) (others : Cache → Cache)
    (secret secret' : Str) (age : ℕ) (now later : ℤ) (r r' : Request) (h : Headers) (c c' : Claim)
    (one : IsAuthentic d secret age now r h c) (two : IsAuthentic d secret' age later r' h c') where
  same_nonce : c.nonce ≡ c'.nonce
  same_nonce = one.nonce ∙ sym two.nonce

  same_expiry : c.expires_at ≡ c'.expires_at
  same_expiry = ground (arith, one.timestamp, two.timestamp, one.expires_at, two.expires_at)

  refused_again :
      (after : Cache) (events : List Event)
      → ClocksUpTo later events
      → held c.nonce c.expires_at after ≡ true
      → (admit s reply others later (run after events) (passed c')).1 ≡ failed replayed_request
  refused_again after events clocks h =
      held_refused s reply others later (run after events) c' two.not_late (
        held-run c'.nonce c'.expires_at events after
          (ClocksUpTo-mono later c'.expires_at events two.not_late clocks)
          (rw (← same_nonce, ← same_expiry) h))

-- A request is accepted once. After `verify_request` has accepted a set of headers, and after any
-- sequence of critical sections of other calls whose clocks do not pass the second check's clock,
-- a second check of the same headers with the same maximal age fails, for every request, secret,
-- store configuration and reply of the store.
pub verify_request_once :
    (d : Digests) (s s' : Settings) (reply reply' : Option Str) (others others' : Cache → Cache)
    (secret secret' : Str) (age : ℕ) (now later : ℤ) (r r' : Request) (h : Headers)
    (cache after : Cache) (events : List Event)
    → verify_request d s reply others secret age now r h cache ≡ (after, passed tt)
    → ClocksUpTo later events
    → (verify_request d s' reply' others' secret' age later r' h (run after events)).1 ≢ passed tt
unfolding verify_request
verify_request_once d s s' reply reply' others others' secret secret' age now later r r' h cache
      after events e clocks again =
    let first : (c : Claim) × (authenticate d secret age now r h ≡ passed c)
        × (held c.nonce c.expires_at after ≡ true) =
      accepted_claim s reply others now cache after (authenticate d secret age now r h) e in
    elim (Checked-cases (authenticate d secret' age later r' h)) [
      | inr (x, k) ↦ ground arith
      | inl (c, k) ↦
          let one : IsAuthentic d secret age now r h first.0 =
            authenticate-IsAuthentic d secret age now r h first.0 first.1 in
          let two : IsAuthentic d secret' age later r' h c =
            authenticate-IsAuthentic d secret' age later r' h c k in
          ground (
            arith,
            k,
            again,
            refused_again d s' reply' others' secret secret' age now later r r' h first.0 c one two
                after events clocks first.2,
          )
    ]
