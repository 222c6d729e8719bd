-- ===== src/Perimeter/Proxy.antt =====
-- security.py: `env_flag`, the protected paths and `ProxyAuthMiddleware`.
use graphrag_agent.Base.{
  Bool, false, not, ◌&&◌, ◌||◌, Option, none, some, ◌++◌, if◌then◌else◌, ◌==◌,
}
use graphrag_agent.Base.Text.{
  Str, codes, str_eq, nonempty, strip, starts_with, drop_end, or_else, is_ascii, is_true_word,
}

unfoldable pub env_flag : Option Str → Bool → Bool
unfolding is_true_word
env_flag none default = default
env_flag (some raw) default = is_true_word raw

abbrev pub api_prefix : Str
api_prefix = codes "/api/v1"

abbrev pub public_path : Str
public_path = codes "/api/v1/health/live"

-- path.rstrip("/") or "/"
unfoldable pub normalized : Str → Str
unfolding drop_end
normalized path = or_else (drop_end (λ c. c == b'/') path) (codes "/")

-- `_is_protected_api_path`
unfoldable pub is_protected_api_path : Str → Bool
unfolding normalized
is_protected_api_path path =
    (str_eq (normalized path) api_prefix || starts_with (normalized path) (api_prefix ++ codes "/"))
    && not (str_eq (normalized path) public_path)

pub record Middleware : Type 0 where
  pub secret : Str
  pub require_auth : Bool

abbrev or_env : Option Bool → Option Str → Bool
or_env none flag = env_flag flag false
or_env (some b) flag = b

abbrev or_text : Option Str → Str → Str
or_text none configured = configured
or_text (some s) configured = s

-- `__init__`: the arguments, or the environment's two variables
unfoldable pub middleware : Option Str → Option Bool → Str → Option Str → Middleware
unfolding strip env_flag
middleware secret require configured flag = record {
  secret = strip (or_text secret configured);
  require_auth = or_env require flag;
}

-- What happens to a request: it goes on to the application, or it is answered with 503 or 401, or
-- the comparison of the secrets raises a TypeError, which it does on text outside ASCII.
pub data Reply : Type 0 where
  forwarded unavailable unauthorized raised : Reply

abbrev pub compared : Str → Str → Reply
compared supplied secret =
    if is_ascii supplied && is_ascii secret
    then if str_eq supplied secret then forwarded else unauthorized
    else raised

-- `__call__`: the scope's type, its path, and the proxy secret's header
unfoldable pub call : Middleware → Str → Str → Str → Reply
unfolding is_protected_api_path is_ascii
call m scope_type path supplied =
    if not (str_eq scope_type (codes "http")) || not (is_protected_api_path path)
    then forwarded
    else if not (nonempty m.secret || m.require_auth)
    then forwarded
    else if not (nonempty m.secret)
    then unavailable
    else if not (nonempty supplied)
    then unauthorized
    else compared supplied m.secret
