-- ===== src/Accounts/Usage.antt =====
-- Usage events of account_repository.py. The costs are in millionths of a yuan; the
-- division that shows them in yuan is one of floating-point numbers and not modelled.
use graphrag_agent.Base.{
  ℕ, ◌+◌, ◌*◌, Bool, true, ◌&&◌, ◌||◌, Option, none, some, List, [], ◌∷◌, ◌++◌, if◌then◌else◌,
  keep_if, leb, ltb, ◌==◌, min, max,
}
use graphrag_agent.Base.Int.{ℤ, pos_part}
use graphrag_agent.Base.Text.{Str, str_eq, nonempty}
use graphrag_agent.Base.Sort.{sort_by}
use graphrag_agent.Accounts.Tables.{UsageEvent, Payload, Database}

-- max(0, int(value)) is the number itself, or 0
unfoldable pub record_usage :
    (event_id tenant user operation provider model : Str) (input output cost : ℤ) (request_id : Str)
    (payload : Payload) (now : ℕ)
    → Database
    → Database
record_usage event_id tenant user operation provider model input output cost request_id payload now
      db =
    record db {
      usage =
          db.usage
          ++ record {
            event_id = event_id;
            tenant_id = tenant;
            user_id = user;
            operation = operation;
            provider = provider;
            model = model;
            input_tokens = pos_part input;
            output_tokens = pos_part output;
            cost_microcny = pos_part cost;
            request_id = request_id;
            payload = payload;
            created_at = now;
          }
            ∷ [];
    }

-- min(max(int(days), 1), 366)
unfoldable pub clamp_days : ℤ → ℕ
clamp_days days = min (max (pos_part days) 1) 366

pub record Sums : Type 0 where
  pub events : ℕ
  pub input_tokens : ℕ
  pub output_tokens : ℕ
  pub cost_microcny : ℕ

abbrev pub no_usage : Sums
no_usage = record { events = 0; input_tokens = 0; output_tokens = 0; cost_microcny = 0 }

abbrev pub add_event : UsageEvent → Sums → Sums
add_event e s = record {
  events = s.events + 1;
  input_tokens = s.input_tokens + e.input_tokens;
  output_tokens = s.output_tokens + e.output_tokens;
  cost_microcny = s.cost_microcny + e.cost_microcny;
}

-- count(*) and the three sums
unfoldable pub sums_of : List UsageEvent → Sums
sums_of [] = no_usage
sums_of (e ∷ events) = add_event e (sums_of events)

pub record Group : Type 0 where
  pub operation : Str
  pub provider : Str
  pub model : Str
  pub sums : Sums

abbrev pub belongs : UsageEvent → Group → Bool
belongs e g =
    str_eq e.operation g.operation && str_eq e.provider g.provider && str_eq e.model g.model

-- GROUP BY operation, provider, model
unfoldable pub add_to_group : UsageEvent → List Group → List Group
add_to_group e [] =
    record {
      operation = e.operation;
      provider = e.provider;
      model = e.model;
      sums = add_event e no_usage;
    }
    ∷ []
add_to_group e (g ∷ groups) =
    if belongs e g
    then record g { sums = add_event e g.sums } ∷ groups
    else g ∷ add_to_group e groups

unfoldable pub groups_of : List UsageEvent → List Group
unfolding add_to_group
groups_of [] = []
groups_of (e ∷ events) = add_to_group e (groups_of events)

-- ORDER BY cost_microcny DESC, events DESC
abbrev pub group_le : Group → Group → Bool
group_le a b =
    ltb b.sums.cost_microcny a.sums.cost_microcny
    || (b.sums.cost_microcny == a.sums.cost_microcny && leb b.sums.events a.sums.events)

pub record Summary : Type 0 where
  pub days : ℕ
  pub total : Sums
  pub breakdown : List Group

-- created_at >= now() - days, and AND user_id = ... where a user is given
abbrev pub in_window : Str → Option Str → ℕ → ℕ → UsageEvent → Bool
in_window tenant none days now e =
    str_eq e.tenant_id tenant && leb now (e.created_at + days * 86400)
in_window tenant (some user) days now e =
    str_eq e.tenant_id tenant
    && leb now (e.created_at + days * 86400)
    && (if nonempty user then str_eq e.user_id user else true)

unfoldable pub usage_summary : Str → Option Str → ℤ → ℕ → Database → Summary
unfolding clamp_days sums_of groups_of sort_by str_eq
usage_summary tenant user days now db =
    let rows = keep_if (in_window tenant user (clamp_days days) now) db.usage in
    record {
      days = clamp_days days;
      total = sums_of rows;
      breakdown = sort_by group_le (groups_of rows);
    }
