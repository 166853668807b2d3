-- ===== src/Budget/Tests.antt =====
-- The theorems on the budget check at a key with a budget that is used up.
use molenkopf.Base.{◌≡◌, refl, none, some, [], ◌∷◌, map}
use molenkopf.Identity.{IdentityData, Budget, total, block, warn}
use molenkopf.Identity.Tests.{test_data, ada_key}
use molenkopf.Client.{ClientIdentity, api_key}
use molenkopf.Runtime.{RuntimeState}
use molenkopf.Usage.{
  record_all, usage_for_period, record_usage, accumulate, with_request, add_usage,
}
use molenkopf.Usage.Tests.{fresh_state, three_requests, test_sha256}
use molenkopf.Budget.{TierKind, Metric, check_budgets, exceeded}
use molenkopf.Budget.Tiers.{scopes_of, charged}
use molenkopf.Budget.Gate.{verdict, check_budgets-verdict}

abbrev pub ada_identity : ClientIdentity
ada_identity = record {
  id = "user:ada";
  label = "key:k1";
  source = api_key;
  user_id = some "ada";
  agent_id = none;
  key_agent_label = some "coder";
  team_ids = some ("lab" ∷ []);
  key_id = some "k1";
  project = some "thesis";
  allowed_provider_ids = none;
}

abbrev small_budget : Budget
small_budget = record {
  token_limit = some 500;
  cost_limit_eur = none;
  period = total;
  on_exceed = block;
}

abbrev budgeted_data : IdentityData
budgeted_data = record test_data {
  keys = ("k1", record ada_key { budget = some small_budget }) ∷ [];
  org_budget = some (record small_budget { on_exceed = warn });
}

abbrev used_state : RuntimeState
used_state = record (record_all test_sha256 fresh_state three_requests) {
  identity = some budgeted_data;
}

check_budgets_test :
    check_budgets used_state ada_identity 0 ≡ exceeded TierKind.key "k1" Metric.tokens
unfolding check_budgets record_all usage_for_period record_usage accumulate with_request add_usage
check_budgets_test = refl

check_budgets_example :
    check_budgets used_state ada_identity 0
    ≡ verdict (map (charged used_state budgeted_data 0) (scopes_of ada_identity))
check_budgets_example = check_budgets-verdict used_state budgeted_data ada_identity 0 refl
