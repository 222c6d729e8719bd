-- ===== src/Perimeter/Examples.antt =====
-- The perimeter's theorems at concrete requests.
use graphrag_agent.Base.{◌≡◌, refl, true, false, ◌↔◌, some, [], ◌∷◌}
use graphrag_agent.Base.Text.{codes, str_eq, nonempty, strip, elem, starts_with}
use graphrag_agent.Perimeter.Proxy.{Middleware, call, unavailable, is_protected_api_path}
use graphrag_agent.Perimeter.Admission.{call-forwarded_iff}
use graphrag_agent.Perimeter.Visibility.{document_is_visible, visible_document_ids}

abbrev guarded : Middleware
guarded = record { secret = codes "s3cret"; require_auth = false }

call-forwarded_iff_example :
    (nonempty guarded.secret ≡ false)
    ↔ (call guarded (codes "http") (codes "/api/v1/documents") (codes "x") ≡ unavailable)
unfolding is_protected_api_path str_eq starts_with
call-forwarded_iff_example =
    (call-forwarded_iff guarded (codes "/api/v1/documents") (codes "x") refl refl).1

health_slash : is_protected_api_path (codes "/api/v1/health/live/") ≡ false
unfolding is_protected_api_path str_eq starts_with
health_slash = refl

seen_by_owner :
    document_is_visible (codes "d2") (
      visible_document_ids
        (some (codes " 1"))
        (codes "d1, d3")
        (codes "u1")
        (record { doc_id = codes "d2"; owner_id = codes "u1" } ∷ []))
    ≡ true
unfolding document_is_visible visible_document_ids str_eq elem strip
seen_by_owner = refl
