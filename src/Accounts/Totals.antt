-- ===== src/Accounts/Totals.antt =====
-- The totals of usage_summary of account_repository.py are those of its breakdown.
use graphrag_agent.Base.{
  ℕ, ◌+◌, ◌≤◌, ◌≡◌, refl, ap, ◌∙◌, Option, List, [], ◌∷◌, keep_if, arith, Bool-cases, inl, inr,
}
use graphrag_agent.Base.Int.{ℤ}
use graphrag_agent.Base.Text.{Str}
use graphrag_agent.Base.Sort.{sort_by, insert_by}
use graphrag_agent.Accounts.Tables.{UsageEvent, Database}
use graphrag_agent.Accounts.Usage.{
  Sums, Group, no_usage, add_event, sums_of, belongs, add_to_group, groups_of, group_le,
  usage_summary, in_window, clamp_days,
}

abbrev plus : Sums → Sums → Sums
plus a b = record {
  events = a.events + b.events;
  input_tokens = a.input_tokens + b.input_tokens;
  output_tokens = a.output_tokens + b.output_tokens;
  cost_microcny = a.cost_microcny + b.cost_microcny;
}

-- The rows of a breakdown, added up.
abbrev pub added : List Group → Sums
added [] = no_usage
added (g ∷ groups) = plus g.sums (added groups)

Sums-ext :
    (a b : Sums)
    → a.events ≡ b.events
    → a.input_tokens ≡ b.input_tokens
    → a.output_tokens ≡ b.output_tokens
    → a.cost_microcny ≡ b.cost_microcny
    → a ≡ b
Sums-ext a b e i o c = cc

plus_swap : (a b c : Sums) → plus a (plus b c) ≡ plus b (plus a c)
plus_swap a b c = Sums-ext _ _ (omega arith) (omega arith) (omega arith) (omega arith)

plus-add_event : (e : UsageEvent) (a b : Sums) → plus (add_event e a) b ≡ add_event e (plus a b)
plus-add_event e a b = Sums-ext _ _ (omega arith) (omega arith) (omega arith) (omega arith)

plus-add_event_right :
    (e : UsageEvent) (a b : Sums) → plus a (add_event e b) ≡ add_event e (plus a b)
plus-add_event_right e a b = Sums-ext _ _ (omega arith) (omega arith) (omega arith) (omega arith)

added-insert_by :
    (g : Group) (groups : List Group)
    → added (insert_by group_le g groups) ≡ plus g.sums (added groups)
unfolding insert_by
added-insert_by g [] = refl
added-insert_by g (h ∷ groups) = elim (Bool-cases (group_le g h)) [
  | inl e ↦ rw e refl
  | inr e ↦
      rw e (ap (plus h.sums) (added-insert_by g groups) ∙ plus_swap h.sums g.sums (added groups))
]

added-sort_by : (groups : List Group) → added (sort_by group_le groups) ≡ added groups
unfolding sort_by
added-sort_by [] = refl
added-sort_by (g ∷ groups) =
    added-insert_by g (sort_by group_le groups) ∙ ap (plus g.sums) (added-sort_by groups)

added-add_to_group :
    (e : UsageEvent) (groups : List Group)
    → added (add_to_group e groups) ≡ add_event e (added groups)
unfolding add_to_group
added-add_to_group e [] = plus-add_event e no_usage no_usage
added-add_to_group e (g ∷ groups) = elim (Bool-cases (belongs e g)) [
  | inl mine ↦ rw mine (plus-add_event e g.sums (added groups))
  | inr other ↦ rw other (
      ap (plus g.sums) (added-add_to_group e groups) ∙ plus-add_event_right e g.sums (added groups))
]

added-groups_of : (events : List UsageEvent) → added (groups_of events) ≡ sums_of events
unfolding groups_of sums_of
added-groups_of [] = refl
added-groups_of (e ∷ events) =
    added-add_to_group e (groups_of events) ∙ ap (add_event e) (added-groups_of events)

-- Whatever the tenant, the user and the days asked for, the total counts exactly what the rows of
-- the breakdown count together, and the days lie between 1 and 366.
pub usage_summary-total :
    (tenant : Str) (user : Option Str) (days : ℤ) (now : ℕ) (db : Database)
    → let s = usage_summary tenant user days now db in
      (added s.breakdown ≡ s.total) × (1 ≤ s.days) × (s.days ≤ 366)
unfolding usage_summary clamp_days
usage_summary-total tenant user days now db =
    let rows = keep_if (in_window tenant user (clamp_days days) now) db.usage in
    (added-sort_by (groups_of rows) ∙ added-groups_of rows, omega arith, omega arith)
