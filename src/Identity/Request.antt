-- ===== src/Identity/Request.antt =====
-- `RequestIdentity` of identity.py, and what it admits.
use graphrag_agent.Base.{Bool, Option, List, [], ◌∷◌}
use graphrag_agent.Base.Text.{Str, codes, elem}

pub record RequestIdentity : Type 0 where
  pub authenticated : Bool
  pub actor_id : Str
  pub tenant_id : Str
  pub role : Str
  pub visitor_id : Option Str
  pub organization_id : Option Str
  pub organization_slug : Option Str
  pub session_id : Option Str
  pub permissions : List Str

abbrev pub admin_roles : List Str
admin_roles = codes "admin" ∷ codes "owner" ∷ []

unfoldable pub is_admin : RequestIdentity → Bool
unfolding elem
is_admin identity = elem identity.role admin_roles
