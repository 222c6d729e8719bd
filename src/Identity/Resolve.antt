-- ===== src/Identity/Resolve.antt =====
-- `resolve_identity` and `require_admin` of identity.py. What uuid.UUID parses and what PyJWT verifies
-- are parameters, and so is the lower case of a role; a claim that is missing is an empty text.
use graphrag_agent.Base.{
  ℕ, Bool, true, false, not, ◌&&◌, ◌||◌, Option, none, some, List, [], ◌∷◌, ◌++◌, if◌then◌else◌,
  drop, ◌==◌, keep_if, map, ◌⊎◌, inl, inr,
}
use graphrag_agent.Base.Text.{
  Str, codes, str_eq, nonempty, or_else, strip, lower, starts_with, split_on, elem, drop_end,
}
use graphrag_agent.Identity.Request.{RequestIdentity, is_admin}

-- What uuid.UUID makes of a text: its canonical text, its number, and whether its variant is RFC 4122.
pub record Uuid : Type 0 where
  pub canonical : Str
  pub int : ℕ
  pub is_rfc_4122 : Bool

-- Permissions stand as one text with commas or as a list; none are an empty list.
pub data Permissions : Type 0 where
  text : Str → Permissions
  listed : List Str → Permissions

-- a or b or []
abbrev pub or_permissions : Permissions → Permissions → Permissions
or_permissions (text []) other = other
or_permissions (text (x ∷ s)) other = text (x ∷ s)
or_permissions (listed []) other = other
or_permissions (listed (x ∷ xs)) other = listed (x ∷ xs)

unfoldable pub permissions_of : Permissions → List Str
unfolding split_on strip
permissions_of (text s) = keep_if nonempty (map strip (split_on b',' [] s))
permissions_of (listed l) = l

-- claims["o"], or empty texts and no permissions
pub record Compact : Type 0 where
  pub id : Str
  pub slg : Str
  pub rol : Str
  pub per : Permissions

pub record Claims : Type 0 where
  pub sub : Str
  pub sid : Str
  pub azp : Str
  pub sts : Str
  pub compact : Compact
  pub org_id : Str
  pub org_slug : Str
  pub org_role : Str
  pub org_permissions : Permissions

-- An HTTP status, or the identity.
pub data Resolved : Type 0 where
  refused : ℕ → Resolved
  resolved : RequestIdentity → Resolved

-- str(a or b or "").strip() or None
unfoldable pub text_or_none : Str → Str → Option Str
unfolding strip
text_or_none a b = let both = strip (or_else a b) in if nonempty both then some both else none

-- What stands behind "org:", where the role starts with it.
abbrev pub without_prefix : Str → Str
without_prefix role = if starts_with role (codes "org:") then drop 4 role else role

abbrev pub has_some : List Str → Bool
has_some [] = false
has_some (x ∷ xs) = true

-- The checks of `_verified_claims` on what PyJWT has verified.
unfoldable pub checked : List Str → Option Claims → ℕ ⊎ Claims
unfolding elem str_eq drop_end
checked allowed none = inl 401
checked allowed (some c) =
    let azp = drop_end (λ x. x == b'/') c.azp in
    if nonempty azp && has_some allowed && not (elem azp allowed)
    then inl 401
    else if str_eq c.sts (codes "pending")
    then inl 403
    else inr c

module _ (uuid : Str → Option Uuid) (decode : Str → Option Claims) (lowered : Str → Str) where
  abbrev pub canonical_text : Str → Option Uuid → Option Str
  canonical_text raw none = none
  canonical_text raw (some u) =
      if not (str_eq u.canonical raw) || u.int == 0 || not u.is_rfc_4122 then none else some raw

  -- `_canonical_visitor`
  unfoldable pub canonical_visitor : Str → Option Str
  unfolding strip str_eq
  canonical_visitor value =
      let raw = strip value in
      if not (nonempty raw) || not (str_eq raw (lowered raw))
      then none
      else canonical_text raw (uuid raw)

  -- `_organization_claims`, the role
  unfoldable pub organization_role : Claims → Str
  unfolding strip starts_with
  organization_role c =
      or_else
        (without_prefix
          (lowered (strip (or_else c.compact.rol (or_else c.org_role (codes "member"))))))
        (codes "member")

  abbrev pub owned_role : Option Str → Str → Str
  owned_role none role = codes "owner"
  owned_role (some org) role = role

  abbrev pub tenant_or_user : Option Str → Str → Str
  tenant_or_user none user = codes "user:" ++ user
  tenant_or_user (some org) user = org

  -- The identity of an account.
  unfoldable pub member : Option Str → Claims → RequestIdentity
  unfolding text_or_none organization_role permissions_of
  member visitor c =
      let org = text_or_none c.compact.id c.org_id in
      record {
        authenticated = true;
        actor_id = c.sub;
        tenant_id = tenant_or_user org c.sub;
        role = owned_role org (organization_role c);
        visitor_id = visitor;
        organization_id = org;
        organization_slug = text_or_none c.compact.slg c.org_slug;
        session_id = if nonempty c.sid then some c.sid else none;
        permissions = permissions_of (or_permissions c.compact.per c.org_permissions);
      }

  -- The identity of somebody without an account.
  abbrev pub guest : Str → Option Str → RequestIdentity
  guest id visitor = record {
    authenticated = false;
    actor_id = id;
    tenant_id = id;
    role = codes "visitor";
    visitor_id = visitor;
    organization_id = none;
    organization_slug = none;
    session_id = none;
    permissions = [];
  }

  abbrev pub anonymous : Bool → Option Str → Resolved
  anonymous allow_legacy (some visitor) = resolved (guest visitor (some visitor))
  anonymous true none = resolved (guest (codes "default") none)
  anonymous false none = refused 400

  abbrev pub accepted : Option Str → ℕ ⊎ Claims → Resolved
  accepted visitor (inl status) = refused status
  accepted visitor (inr c) = resolved (member visitor c)

  -- `configured` says whether Clerk's issuer and keys are known.
  unfoldable pub resolve_identity : Bool → List Str → Bool → Str → Str → Resolved
  unfolding strip lower starts_with canonical_visitor checked
  resolve_identity configured allowed allow_legacy authorization visitor_id =
      let visitor = canonical_visitor visitor_id in
      let raw = strip authorization in
      let claims = checked allowed (decode (strip (drop 7 raw))) in
      if not (nonempty raw)
      then anonymous allow_legacy visitor
      else if not (starts_with (lower raw) (codes "bearer "))
      then refused 401
      else if not configured
      then refused 503
      else accepted visitor claims

-- `require_authenticated_identity` and `require_admin`: the status that is raised, if one is
unfoldable pub require_authenticated : RequestIdentity → Option ℕ
require_authenticated identity = if identity.authenticated then none else some 401

unfoldable pub require_admin : RequestIdentity → Option ℕ
unfolding is_admin
require_admin identity =
    if not identity.authenticated then some 401 else if is_admin identity then none else some 403
