-- ===== src/Identity/Admission.antt =====
-- Who passes require_admin of identity.py.
use graphrag_agent.Base.{◌≡◌, ◌≢◌, true, ◌⊎◌, Option, none, some, List, [], ◌++◌, ◌==◌}
use graphrag_agent.Base.Text.{Str, codes, drop_end, elem}
use graphrag_agent.Identity.Request.{RequestIdentity, admin_roles}
use graphrag_agent.Identity.Resolve.{Uuid, Claims, Resolved, refused, resolved, organization_role}

abbrev identity_or : RequestIdentity → Resolved → RequestIdentity
identity_or i (refused n) = i
identity_or i (resolved j) = j

-- The claims are of a session that is not pending, and their origin, without the slashes that end
-- it, is missing or one of those that are allowed, where any is configured.
abbrev pub Admits : List Str → Claims → Type 0
Admits allowed c =
    let origin = drop_end (λ x. x == b'/') c.azp in
    (c.sts ≢ codes "pending") × ((origin ≡ []) ⊎ ((allowed ≡ []) ⊎ (elem origin allowed ≡ true)))

module _ (uuid : Str → Option Uuid) (decode : Str → Option Claims) (lowered : Str → Str) where
  -- The tenant is the account's own, or the organization that the claims name, with a role of it
  -- that administers.
  abbrev pub Administers : Claims → RequestIdentity → Type 0
  Administers c i =
      ((i.organization_id ≡ none) × (i.tenant_id ≡ codes "user:" ++ c.sub))
      ⊎ ((i.organization_id ≡ some i.tenant_id)
          × (elem (organization_role uuid decode lowered c) admin_roles ≡ true))
