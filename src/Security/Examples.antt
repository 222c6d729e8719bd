-- ===== src/Security/Examples.antt =====
-- The theorems about internal requests at concrete requests, and runs of the checks.
use graphrag_agent.Security.RoundTrip.{HexDigests, verify-sign_request}
use graphrag_agent.Base.{◌≡◌, ◌≢◌, refl, false, none, List, [], ◌∷◌, arith}
use graphrag_agent.Base.Int.{pos, ◌+ℤ◌, ◌-ℤ◌}
use graphrag_agent.Base.Text.{Str, codes, str_eq, parse_int, starts_with, is_space, is_ascii}
use graphrag_agent.Security.Errors.{passed, failed, stale_request}
use graphrag_agent.Security.Nonce.{Cache, Settings, consume, consume_finish, holds}
use graphrag_agent.Security.Fence.{Event, begins, finishes, run, consume_finish_once}
use graphrag_agent.Security.Signing.{
  Digests, Request, Headers, Claim, sign_request, authenticate, verify_request, header, canonical,
  secret_value, after_equals, timestamp_header, nonce_header, content_sha_header, signature_header,
  verify_uncached,
}
use graphrag_agent.Security.Acceptance.{IsAuthentic, authenticate-IsAuthentic, verify_request_once}

-- Toy digests, in which the text itself is the digest.
abbrev toy : Digests
toy = record { sha256 = λ s. b'#' ∷ s; hmac_sha256 = λ key s. codes "abc" }

abbrev secret : Str
secret = codes "0123456789abcdef0123456789abcdef"

abbrev ping : Request
ping = record { method = codes "post"; path = codes "/ping"; body = codes "body" }

abbrev headers : Headers
headers =
    (timestamp_header, codes "1000")
    ∷ (nonce_header, codes "nonce-000001")
    ∷ (content_sha_header, codes "#body")
    ∷ (signature_header, codes "v1=abc")
    ∷ []

abbrev local_only : Settings
local_only = record { url = []; token = []; required = false }

abbrev claim : Claim
claim = record { nonce = codes "nonce-000001"; timestamp = pos 1000; expires_at = pos 1300 }

passes : authenticate toy secret 300 (pos 1010) ping headers ≡ passed claim
unfolding authenticate header starts_with parse_int str_eq is_ascii canonical secret_value
    after_equals ◌-ℤ◌ ◌+ℤ◌
passes = refl

too_late : authenticate toy secret 300 (pos 1301) ping headers ≡ failed stale_request
unfolding authenticate header starts_with parse_int str_eq is_ascii canonical secret_value
    after_equals ◌-ℤ◌ ◌+ℤ◌
too_late = refl

authenticate-IsAuthentic_example : IsAuthentic toy secret 300 (pos 1010) ping headers claim
authenticate-IsAuthentic_example =
    authenticate-IsAuthentic toy secret 300 (pos 1010) ping headers claim passes

abbrev cached : Cache
cached = record { nonce = codes "nonce-000001"; expiry = pos 1300 } ∷ []

accepted :
    verify_request toy local_only none (λ c. c) secret 300 (pos 1010) ping headers []
    ≡ (cached, passed tt)
unfolding verify_request consume authenticate header starts_with parse_int str_eq is_ascii canonical
    secret_value after_equals ◌-ℤ◌ ◌+ℤ◌
accepted = refl

uncached : verify_uncached toy secret 300 (pos 1010) ping headers ≡ passed tt
unfolding verify_uncached authenticate header starts_with parse_int str_eq is_ascii canonical
    secret_value after_equals ◌-ℤ◌ ◌+ℤ◌
uncached = refl

abbrev traffic : List Event
traffic = begins (codes "nonce-000002") (pos 1100) ∷ finishes (codes "nonce-000002") (pos 1400) ∷ []

verify_request_once_example :
    (verify_request toy local_only none
      (λ c. c)
      secret
      300
      (pos 1200)
      ping
      headers
      (run cached traffic)).1
    ≢ passed tt
verify_request_once_example =
    verify_request_once toy local_only local_only none none (λ c. c) (λ c. c) secret secret 300
      (pos 1010) (pos 1200) ping ping headers [] cached traffic accepted (omega arith)

consume_finish_once_example :
    (consume_finish (codes "nonce-000001") (pos 1300) (run cached traffic)).1 ≡ false
unfolding consume_finish holds str_eq
consume_finish_once_example =
    consume_finish_once (codes "nonce-000001") (pos 1300) (pos 1300) [] traffic refl (omega arith)

abbrev toy_hex : Digests
toy_hex = record { sha256 = λ s. codes "00"; hmac_sha256 = λ key s. codes "abc" }

abbrev signed_headers : Headers
signed_headers =
    (timestamp_header, codes "1000")
    ∷ (nonce_header, codes "nonce-000001")
    ∷ (content_sha_header, codes "00")
    ∷ (signature_header, codes "v1=abc")
    ∷ []

solid_digests : HexDigests toy_hex
unfolding is_space is_ascii
solid_digests = record {
  sha256_solid = λ s. ground arith;
  sha256_nonempty = λ s. refl;
  hmac_solid = λ key s. ground arith;
  sha256_ascii = λ s. refl;
  hmac_ascii = λ key s. refl;
}

signed :
    sign_request toy_hex secret ping (codes "1000") (codes "nonce-000001") ≡ passed signed_headers
unfolding sign_request secret_value
signed = refl

verify-sign_request_example :
    authenticate toy_hex secret 300 (pos 1010) ping signed_headers ≡ passed claim
unfolding ◌+ℤ◌ parse_int is_space
verify-sign_request_example =
    verify-sign_request toy_hex solid_digests secret 300 (pos 1010) ping (codes "1000") (pos 1000)
      (codes "nonce-000001") signed_headers refl refl (ground arith) (ground arith) (omega arith)
      (omega arith) signed
