-- ===== src/Usage.antt =====
-- Usage accounting, packages/proxy/src/http/usage-accounting.ts: what each request adds to the
-- counters of its provider, user, agents, key and teams, and what is read from them.
pub mod Period
pub mod Bucket
pub mod Ledger
pub mod Sums
pub mod Restore
pub mod Tests
use molenkopf.Base.{
  ℕ, zero, suc, ◌+◌, ◌-◌, ◌*◌, ◌/◌, ◌≤◌, ◌<◌, String, ◌≡◌, refl, sym, ap, ◌∙◌, ◌≢◌, ◌↔◌, ◌⊎◌, inl,
  inr, Bool, true, false, ◌&&◌, ◌||◌, not, Option, none, some, List, [], ◌∷◌, ◌++◌, map, arith,
  ◌==◌, eq_iff, eq_refl, ltb, leb, nat_eq, if◌then◌else◌, Bool-cases, Option-cases, or_else,
  or_option, is_some, ◌>>=◌, Result, ok, fail, length, take, drop, filter, find, any, all, All,
  length-append, includes, includes-filter, includes-append, other_than, unique, includes-unique,
  IsUnique, filter-IsUnique, unique-IsUnique, all_mono, all-filter, all-of_includes,
  all-filter_self, all-const, filter-all, Dict, lookup, insert, erase, values, lookup-insert,
  lookup-erase, has, has-erase, all_rows, erase_all, map_values, is_empty, is_space, trim, size,
  every_char, is_digit, is_letter, is_id_char, is_slug,
}
use Prim.Native.String
use molenkopf.Identity.{BudgetPeriod, total, day, week, month, User, ApiKey, IdentityData}
use molenkopf.Identity.Pricing.{cost_eur}
use molenkopf.Client.{Source, agent, user, safe_subject_id, client_id_for_agent}
use molenkopf.Runtime.{
  Counts, ModelUsage, PeriodUsage, UsageTotals, AuditClient, AuditManifest, RuntimeState,
}
use molenkopf.Usage.Period.{budget_period_key}

abbrev pub no_counts : Counts
no_counts = record { requests = 0; input_tokens = 0; output_tokens = 0; cost_eur = 0 }

abbrev pub no_period_usage : PeriodUsage
no_period_usage = record { counts = no_counts; models = [] }

abbrev pub no_usage : UsageTotals
no_usage = record { overall = no_period_usage; periods = [] }

-- A text that is set, `if (s)`.
abbrev pub set_text : Option String → Option String
set_text none = none
set_text (some s) = if is_empty s then none else some s

abbrev pub manifest_input : AuditManifest → ℕ
manifest_input m = or_else m.upstream_input_tokens 0

abbrev pub manifest_output : AuditManifest → ℕ
manifest_output m = or_else m.upstream_output_tokens 0

abbrev pub add_counts : Counts → AuditManifest → ℕ → Counts
add_counts c m cost = record {
  requests = c.requests + 1;
  input_tokens = c.input_tokens + manifest_input m;
  output_tokens = c.output_tokens + manifest_output m;
  cost_eur = c.cost_eur + cost;
}

abbrev add_reasoning_usage : Dict Counts → String → AuditManifest → ℕ → Dict Counts
add_reasoning_usage reasoning level m cost =
    insert level (add_counts (or_else (lookup level reasoning) no_counts) m cost) reasoning

abbrev with_reasoning : Dict Counts → Option String → AuditManifest → ℕ → Dict Counts
with_reasoning reasoning none m cost = reasoning
with_reasoning reasoning (some level) m cost = add_reasoning_usage reasoning level m cost

abbrev no_model_usage : ModelUsage
no_model_usage = record { counts = no_counts; reasoning = [] }

abbrev add_model_usage : Dict ModelUsage → String → AuditManifest → ℕ → Dict ModelUsage
add_model_usage models model m cost =
    let current = or_else (lookup model models) no_model_usage in
    insert model
      (record {
        counts = add_counts current.counts m cost;
        reasoning = with_reasoning current.reasoning (set_text m.requested_reasoning) m cost;
      })
      models

abbrev with_model : Dict ModelUsage → Option String → AuditManifest → ℕ → Dict ModelUsage
with_model models none m cost = models
with_model models (some model) m cost = add_model_usage models model m cost

unfoldable pub add_usage : PeriodUsage → AuditManifest → ℕ → PeriodUsage
add_usage usage m cost = record {
  counts = add_counts usage.counts m cost;
  models = with_model usage.models (set_text m.requested_model) m cost;
}

abbrev pub add_to_bucket : AuditManifest → ℕ → Dict PeriodUsage → String → Dict PeriodUsage
add_to_bucket m cost periods key =
    insert key (add_usage (or_else (lookup key periods) no_period_usage) m cost) periods

-- One request, in the totals and in the buckets of its day, week and month.
unfoldable pub with_request : UsageTotals → AuditManifest → ℕ → ℕ → UsageTotals
with_request usage m cost at =
    let days = add_to_bucket m cost usage.periods (budget_period_key day at) in
    let weeks = add_to_bucket m cost days (budget_period_key week at) in
    record {
      overall = add_usage usage.overall m cost;
      periods = add_to_bucket m cost weeks (budget_period_key month at);
    }

unfoldable pub accumulate : Dict UsageTotals → String → AuditManifest → ℕ → ℕ → Dict UsageTotals
accumulate usages key m cost at =
    insert key (with_request (or_else (lookup key usages) no_usage) m cost at) usages

unfoldable pub usage_for_period : Option UsageTotals → BudgetPeriod → ℕ → PeriodUsage
usage_for_period none period now = no_period_usage
usage_for_period (some usage) total now = usage.overall
usage_for_period (some usage) period now =
    or_else (lookup (budget_period_key period now) usage.periods) no_period_usage

abbrev pub tokens_of : PeriodUsage → ℕ
tokens_of usage = usage.counts.input_tokens + usage.counts.output_tokens

abbrev pub cost_of : PeriodUsage → ℕ
cost_of usage = usage.counts.cost_eur

unfoldable pub user_usage_key : String → String
user_usage_key user_id = String.◌++◌ "user:" user_id

abbrev pub usage_of : Dict UsageTotals → String → BudgetPeriod → ℕ → PeriodUsage
usage_of usages id period now = usage_for_period (lookup id usages) period now

abbrev pub key_tokens_used : RuntimeState → String → BudgetPeriod → ℕ → ℕ
key_tokens_used s key_id period now = tokens_of (usage_of s.usage_by_key key_id period now)

abbrev pub key_cost_used : RuntimeState → String → BudgetPeriod → ℕ → ℕ
key_cost_used s key_id period now = cost_of (usage_of s.usage_by_key key_id period now)

abbrev pub user_tokens_used : RuntimeState → String → BudgetPeriod → ℕ → ℕ
user_tokens_used s user_id period now =
    tokens_of (usage_of s.usage_by_user (user_usage_key user_id) period now)

abbrev pub user_cost_used : RuntimeState → String → BudgetPeriod → ℕ → ℕ
user_cost_used s user_id period now =
    cost_of (usage_of s.usage_by_user (user_usage_key user_id) period now)

abbrev pub team_tokens_used : RuntimeState → String → BudgetPeriod → ℕ → ℕ
team_tokens_used s team_id period now = tokens_of (usage_of s.usage_by_team team_id period now)

abbrev pub team_cost_used : RuntimeState → String → BudgetPeriod → ℕ → ℕ
team_cost_used s team_id period now = cost_of (usage_of s.usage_by_team team_id period now)

abbrev pub sum_users : (PeriodUsage → ℕ) → Dict UsageTotals → BudgetPeriod → ℕ → ℕ
sum_users amount [] period now = 0
sum_users amount ((_, usage) ∷ usages) period now =
    amount (usage_for_period (some usage) period now) + sum_users amount usages period now

abbrev pub org_tokens_used : RuntimeState → BudgetPeriod → ℕ → ℕ
org_tokens_used s period now = sum_users tokens_of s.usage_by_user period now

abbrev pub org_cost_used : RuntimeState → BudgetPeriod → ℕ → ℕ
org_cost_used s period now = sum_users cost_of s.usage_by_user period now

-- The totals of an agent, or of a user by the same id.
abbrev pub agent_tokens_used : RuntimeState → String → ℕ
agent_tokens_used s client_id =
    tokens_of
      (or_else (or_option (lookup client_id s.usage_by_agent) (lookup client_id s.usage_by_user))
        no_usage).overall

module _ (sha256 : String → String) where
  abbrev sole_match : String → List User → String
  sole_match value [] = value
  sole_match value (u ∷ []) = u.id
  sole_match value (u ∷ v ∷ us) = value

  abbrev known_user_id : IdentityData → String → String
  known_user_id d value =
      if has value d.users
      then value
      else sole_match value (filter (λ u. safe_subject_id sha256 u.id == value) (values d.users))

  unfoldable pub identity_user_id_for_audit_id : RuntimeState → String → String
  identity_user_id_for_audit_id s value = elim s.identity [
    | none ↦ value
    | some d ↦ known_user_id d value
  ]

  -- The owner of the client's key, where one is known.
  abbrev key_owner : RuntimeState → AuditClient → Option String
  key_owner s client = do
    key_id ← set_text client.key_id
    d ← s.identity
    key ← lookup key_id d.keys
    set_text (some key.owner_user_id)

  unfoldable pub usage_user_id : RuntimeState → AuditClient → Option String
  unfolding identity_user_id_for_audit_id
  usage_user_id s client = elim (key_owner s client) [
    | some owner ↦ some owner
    | none ↦ elim (set_text client.user_id) [
      | some value ↦ some (identity_user_id_for_audit_id s value)
      | none ↦ none
    ]
  ]

  abbrev is_agent : Source → Bool
  is_agent agent = true
  is_agent _ = false

  abbrev is_user : Source → Bool
  is_user user = true
  is_user _ = false

  abbrev named_agent : Option String → List String
  named_agent none = []
  named_agent (some id) = client_id_for_agent sha256 id ∷ []

  unfoldable pub agent_usage_keys : AuditClient → List String
  agent_usage_keys client = unique (
      (if is_agent client.source then client.id ∷ [] else [])
      ++ named_agent (set_text client.agent_id))

  abbrev accumulate_each : Dict UsageTotals → List String → AuditManifest → ℕ → Dict UsageTotals
  accumulate_each usages [] m cost = usages
  accumulate_each usages (key ∷ keys) m cost =
      accumulate_each (accumulate usages key m cost m.timestamp) keys m cost

  abbrev accumulate_set : Dict UsageTotals → Option String → AuditManifest → ℕ → Dict UsageTotals
  accumulate_set usages none m cost = usages
  accumulate_set usages (some key) m cost = accumulate usages key m cost m.timestamp

  -- The counter of the client's user, if it has one.
  unfoldable pub user_key : RuntimeState → AuditClient → Option String
  unfolding usage_user_id
  user_key s client = elim (set_text (usage_user_id s client)) [
    | some id ↦ some (user_usage_key id)
    | none ↦ if is_user client.source then some client.id else none
  ]

  abbrev for_client : RuntimeState → AuditManifest → ℕ → AuditClient → RuntimeState
  for_client s m cost client = record s {
    usage_by_user = accumulate_set s.usage_by_user (user_key s client) m cost;
    usage_by_agent = accumulate_each s.usage_by_agent (agent_usage_keys client) m cost;
    usage_by_key = accumulate_set s.usage_by_key (set_text client.key_id) m cost;
    usage_by_team = accumulate_each s.usage_by_team (or_else client.team_ids []) m cost;
  }

  abbrev with_client : RuntimeState → AuditManifest → ℕ → Option AuditClient → RuntimeState
  with_client s m cost none = s
  with_client s m cost (some client) = for_client s m cost client

  -- `auditCursor`: the time and the id, in the order in which the text has them.
  abbrev pub audit_cursor : AuditManifest → ℕ × String
  audit_cursor m = (m.timestamp, m.request_id)

  -- The price of the manifest's provider in the identity data's price table.
  unfoldable pub manifest_cost : RuntimeState → AuditManifest → ℕ
  manifest_cost s m =
      cost_eur (do d ← s.identity; prices ← d.pricing; lookup (or_else m.provider_id "") prices)
        (manifest_input m) (manifest_output m)

  unfoldable pub record_usage : RuntimeState → AuditManifest → RuntimeState
  unfolding manifest_cost
  record_usage s m =
      let cost = manifest_cost s m in
      let by_provider = accumulate_set s.usage_by_provider (set_text m.provider_id) m cost in
      let counted = with_client (record s { usage_by_provider = by_provider }) m cost m.client in
      record counted { usage_snapshot_cursor = some (audit_cursor m) }

  unfoldable pub record_all : RuntimeState → List AuditManifest → RuntimeState
  record_all s [] = s
  record_all s (m ∷ ms) = record_all (record_usage s m) ms
