-- ===== src/Budget.antt =====
-- Budgets of the key, the user, the teams and the organization, packages/proxy/src/http/budget-gate.ts,
-- and the warnings that they add to the audit, packages/proxy/src/http/budget-warnings.ts. The first
-- exceeded budget that blocks refuses the request; a budget that only warns lets it pass.
pub mod Tiers
pub mod Gate
pub mod Tests
use molenkopf.Base.{
  ℕ, zero, suc, ◌+◌, ◌-◌, ◌*◌, ◌/◌, ◌≤◌, ◌<◌, String, ◌≡◌, refl, sym, ap, ◌∙◌, ◌≢◌, ◌↔◌, ◌⊎◌, inl,
  inr, Bool, true, false, ◌&&◌, ◌||◌, not, Option, none, some, List, [], ◌∷◌, ◌++◌, map, arith,
  ◌==◌, eq_iff, eq_refl, ltb, leb, nat_eq, if◌then◌else◌, Bool-cases, Option-cases, or_else,
  or_option, is_some, ◌>>=◌, Result, ok, fail, length, take, drop, filter, find, any, all, All,
  length-append, includes, includes-filter, includes-append, other_than, unique, includes-unique,
  IsUnique, filter-IsUnique, unique-IsUnique, all_mono, all-filter, all-of_includes,
  all-filter_self, all-const, filter-all, Dict, lookup, insert, erase, values, lookup-insert,
  lookup-erase, has, has-erase, all_rows, erase_all, map_values, is_empty, is_space, trim, size,
  every_char, is_digit, is_letter, is_id_char, is_slug,
}
use Prim.Native.String
use molenkopf.Identity.{
  Budget, BudgetPeriod, BudgetAction, total, block, warn, User, Team, ApiKey, IdentityData,
}
use molenkopf.Client.{ClientIdentity}
use molenkopf.Runtime.{RuntimeState}
use molenkopf.Usage.{
  set_text, key_tokens_used, key_cost_used, user_tokens_used, user_cost_used, team_tokens_used,
  team_cost_used, org_tokens_used, org_cost_used,
}

pub data TierKind : Type 0 where
  key user team org : TierKind

pub data Metric : Type 0 where
  tokens cost : Metric

pub record Tier : Type 0 where
  pub tier : TierKind
  pub scope_id : String
  pub budget : Option Budget
  pub tokens : ℕ
  pub cost : ℕ

pub record Warning : Type 0 where
  pub tier : TierKind
  pub scope_id : String
  pub metric : Metric

-- A refusal has the status 429 and the error `budget_exceeded_` with the tier's name.
pub data BudgetCheck : Type 0 where
  allowed : List Warning → BudgetCheck
  exceeded : TierKind → String → Metric → BudgetCheck

abbrev pub reaches : Option ℕ → ℕ → Bool
reaches none used = false
reaches (some limit) used = ltb 0 limit && leb limit used

abbrev exceeded_budget : Option Budget → ℕ → ℕ → Option Metric
exceeded_budget none used spent = none
exceeded_budget (some b) used spent =
    if reaches b.token_limit used
    then some Metric.tokens
    else if reaches b.cost_limit_eur spent
    then some Metric.cost
    else none

unfoldable pub exceeded_metric : Tier → Option Metric
exceeded_metric t = exceeded_budget t.budget t.tokens t.cost

abbrev warns : BudgetAction → Bool
warns warn = true
warns block = false

abbrev pub only_warns : Option Budget → Bool
only_warns none = false
only_warns (some b) = warns b.on_exceed

-- The loop over the tiers, with the warnings so far.
check_tiers : List Warning → List Tier → BudgetCheck
check_tiers warnings [] = allowed warnings
check_tiers warnings (t ∷ ts) = elim (exceeded_metric t) [
  | none ↦ check_tiers warnings ts
  | some m ↦
      if only_warns t.budget
      then check_tiers
          (warnings ++ (record { tier = t.tier; scope_id = t.scope_id; metric = m }) ∷ []) ts
      else exceeded t.tier t.scope_id m
]

-- `budget?.period`, by default all time
abbrev period_of : Option Budget → BudgetPeriod
period_of none = total
period_of (some b) = b.period

abbrev key_tier : RuntimeState → IdentityData → ℕ → Option String → List Tier
key_tier s d now none = []
key_tier s d now (some id) =
    let budget : Option Budget = (do k ← lookup id d.keys; k.budget) in
    (record {
      tier = key;
      scope_id = id;
      budget = budget;
      tokens = key_tokens_used s id (period_of budget) now;
      cost = key_cost_used s id (period_of budget) now;
    })
    ∷ []

abbrev user_tier : RuntimeState → IdentityData → ℕ → Option String → List Tier
user_tier s d now none = []
user_tier s d now (some id) =
    let budget : Option Budget = (do u ← lookup id d.users; u.budget) in
    (record {
      tier = user;
      scope_id = id;
      budget = budget;
      tokens = user_tokens_used s id (period_of budget) now;
      cost = user_cost_used s id (period_of budget) now;
    })
    ∷ []

abbrev team_tier : RuntimeState → IdentityData → ℕ → String → Tier
team_tier s d now id =
    let budget : Option Budget = (do t ← lookup id d.teams; t.budget) in
    record {
      tier = team;
      scope_id = id;
      budget = budget;
      tokens = team_tokens_used s id (period_of budget) now;
      cost = team_cost_used s id (period_of budget) now;
    }

abbrev org_tier : RuntimeState → IdentityData → ℕ → Tier
org_tier s d now = record {
  tier = org;
  scope_id = "org";
  budget = d.org_budget;
  tokens = org_tokens_used s (period_of d.org_budget) now;
  cost = org_cost_used s (period_of d.org_budget) now;
}

unfoldable pub tiers_of : RuntimeState → IdentityData → ClientIdentity → ℕ → List Tier
tiers_of s d client now =
    key_tier s d now (set_text client.key_id)
    ++ (user_tier s d now (set_text client.user_id)
        ++ (map (team_tier s d now) (or_else client.team_ids []) ++ org_tier s d now ∷ []))

unfoldable pub check_budgets : RuntimeState → ClientIdentity → ℕ → BudgetCheck
unfolding check_tiers tiers_of exceeded_metric
check_budgets s client now = elim s.identity [
  | none ↦ allowed []
  | some d ↦ check_tiers [] (tiers_of s d client now)
]

-- The warnings in front of those of the request.
unfoldable pub with_budget_warnings {ℓ} : {W : Type ℓ} → List W → List W → List W
with_budget_warnings base [] = base
with_budget_warnings base (w ∷ warnings) = (w ∷ warnings) ++ base
