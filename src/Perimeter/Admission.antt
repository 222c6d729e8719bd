-- ===== src/Perimeter/Admission.antt =====
-- Which requests the proxy's middleware lets through.
use graphrag_agent.Base.{◌≡◌, refl, true, false, not, ◌||◌, [], ◌∷◌, ◌++◌, ◌==◌, ◌↔◌, arith}
use graphrag_agent.Base.Text.{
  Str, codes, str_eq, str_eq_iff, nonempty, starts_with, drop_end, is_ascii,
}
use graphrag_agent.Perimeter.Proxy.{
  Middleware, forwarded, unavailable, call, is_protected_api_path, normalized, api_prefix,
}

-- An HTTP request to a protected path under an enabled check reaches the application exactly if a
-- secret is configured, is ASCII, and is the one that the request supplies; where authentication is
-- required and no secret is configured, the answer is 503.
pub call-forwarded_iff :
    (m : Middleware) (path supplied : Str)
    → is_protected_api_path path ≡ true
    → (nonempty m.secret || m.require_auth) ≡ true
    → ((call m (codes "http") path supplied ≡ forwarded)
        ↔ ((nonempty m.secret ≡ true) × (is_ascii m.secret ≡ true) × (supplied ≡ m.secret)))
      × ((nonempty m.secret ≡ false) ↔ (call m (codes "http") path supplied ≡ unavailable))
unfolding call str_eq
call-forwarded_iff m path supplied p e = (
  (
    λ h. ground (arith, str_eq_iff supplied m.secret, h),
    λ h. ground (arith, str_eq_iff supplied m.secret, h),
  ),
  (λ h. ground (arith, h), λ h. ground (arith, h)),
)

starts-append : (p s : Str) → starts_with (p ++ s) p ≡ true
unfolding starts_with
starts-append [] [] = refl
starts-append [] (c ∷ s) = refl
starts-append (d ∷ p) s = ground (arith, starts-append p s)

-- Every path below the API's prefix is protected, whatever follows, except the liveness path: for
-- a rest that does not end in a slash, the path is open only if the rest is "health/live".
pub below_prefix_protected :
    (rest : Str)
    → drop_end (λ c. c == b'/') (api_prefix ++ codes "/" ++ rest) ≡ api_prefix ++ codes "/" ++ rest
    → is_protected_api_path (api_prefix ++ codes "/" ++ rest)
      ≡ not (str_eq rest (codes "health/live"))
unfolding is_protected_api_path normalized str_eq
below_prefix_protected rest h = rw h (ground (arith, starts-append (api_prefix ++ codes "/") rest))
