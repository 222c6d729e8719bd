-- ===== src/Identity/Examples.antt =====
-- Identities of concrete requests.
use graphrag_agent.Base.{◌≡◌, refl, true, false, Option, none, some, [], ◌∷◌, if◌then◌else◌}
use graphrag_agent.Base.Text.{Str, codes, str_eq, strip, lower, drop_end, drop_while}
use graphrag_agent.Identity.Request.{RequestIdentity}
use graphrag_agent.Identity.Resolve.{Uuid, Claims, text, listed, refused, resolve_identity}

abbrev no_uuid : Str → Option Uuid
no_uuid s = none

abbrev claims : Claims
claims = record {
  sub = codes "ann";
  sid = [];
  azp = codes "https://app/";
  sts = [];
  compact = record { id = codes "org_1"; slg = []; rol = codes "org:Admin"; per = listed [] };
  org_id = [];
  org_slug = [];
  org_role = [];
  org_permissions = text (codes "read, write,");
}

abbrev decode : Str → Option Claims
decode token = if str_eq token (codes "t") then some claims else none

abbrev ann : RequestIdentity
ann = record {
  authenticated = true;
  actor_id = codes "ann";
  tenant_id = codes "org_1";
  role = codes "admin";
  visitor_id = none;
  organization_id = some (codes "org_1");
  organization_slug = none;
  session_id = none;
  permissions = codes "read" ∷ codes "write" ∷ [];
}

-- A request without a token and without a visitor's id is refused.
no_identity : resolve_identity no_uuid decode lower true [] false [] [] ≡ refused 400
unfolding resolve_identity strip drop_while drop_end
no_identity = refl
