-- ===== src/Usage/Tests.antt =====
-- The theorems on the counters at three requests.
use molenkopf.Base.{◌⊎◌, ℕ, ◌+◌, ◌*◌, String, ◌≡◌, refl, none, some, List, [], ◌∷◌, is_some}
use molenkopf.Identity.{day, total}
use molenkopf.Identity.Tests.{test_data}
use molenkopf.Client.{api_key}
use molenkopf.Runtime.{AuditClient, AuditManifest, RuntimeState, manual}
use molenkopf.Usage.Period.{budget_period_key}
use molenkopf.Usage.{
  usage_for_period, record_usage, accumulate, with_request, add_usage, record_all, key_tokens_used,
  team_tokens_used, org_tokens_used,
}
use molenkopf.Usage.Restore.{Restored, snapshot_of, with_restored, replayed, restore_usage}
use molenkopf.Usage.Restore.Choice.{IsUpToDate, restore_usage-IsUpToDate}
use molenkopf.Usage.Bucket.{when}
use molenkopf.Usage.Ledger.{
  tokens, sum_in, is_text, occurrences, billed_key, billed_teams, billed_user,
}
use molenkopf.Usage.Sums.{
  key_tokens_used-record_all, team_tokens_used-record_all, org_tokens_used-record_all,
}

abbrev pub test_sha256 : String → String
test_sha256 s = "0123456789abcdef"

abbrev pub fresh_state : RuntimeState
fresh_state = record {
  host = "127.0.0.1";
  providers = [];
  active_provider_id = "default";
  provider_selected_at = 0;
  routing_mode = manual;
  provider_weights = [];
  usage_by_provider = [];
  usage_by_user = [];
  usage_by_agent = [];
  usage_by_key = [];
  usage_by_team = [];
  usage_snapshot_cursor = none;
  consumer_budgets = [];
  config_agents = [];
  agent_drafts = [];
  identity = some test_data;
}

abbrev ada_client : AuditClient
ada_client = record {
  id = "user:ada";
  source = api_key;
  user_id = some "ada";
  agent_id = none;
  team_ids = some ("lab" ∷ []);
  key_id = some "k1";
}

abbrev pub ada_request : String → ℕ → ℕ → AuditManifest
ada_request id at input = record {
  request_id = id;
  timestamp = at;
  provider_id = some "openai";
  requested_model = some "small";
  requested_reasoning = none;
  client = some ada_client;
  upstream_input_tokens = some input;
  upstream_output_tokens = some 20;
}

-- Two of them fall on 2026-06-21.
abbrev pub three_requests : List AuditManifest
three_requests =
    ada_request "r1" 1781000000000 100
    ∷ ada_request "r2" 1782000000000 200
    ∷ ada_request "r3" 1782000060000 300
    ∷ []

key_tokens_used_example :
    key_tokens_used (record_all test_sha256 fresh_state three_requests) "k1" day 1782000000000
    ≡ key_tokens_used fresh_state "k1" day 1782000000000
      + sum_in test_sha256
          (λ m. when (is_text (billed_key test_sha256 m) "k1") (tokens test_sha256 m))
          day
          1782000000000
          three_requests
key_tokens_used_example =
    key_tokens_used-record_all test_sha256 three_requests fresh_state "k1" day 1782000000000

key_tokens_used_test :
    key_tokens_used (record_all test_sha256 fresh_state three_requests) "k1" day 1782000000000 ≡ 540
unfolding record_all usage_for_period record_usage accumulate with_request budget_period_key
    add_usage
key_tokens_used_test = refl

team_tokens_used_example :
    team_tokens_used (record_all test_sha256 fresh_state three_requests) "lab" total 0
    ≡ team_tokens_used fresh_state "lab" total 0
      + sum_in test_sha256
          (λ m. occurrences (billed_teams test_sha256 m) "lab" * tokens test_sha256 m)
          total
          0
          three_requests
team_tokens_used_example =
    team_tokens_used-record_all test_sha256 three_requests fresh_state "lab" total 0

org_tokens_used_example :
    org_tokens_used (record_all test_sha256 fresh_state three_requests) total 0
    ≡ org_tokens_used fresh_state total 0
      + sum_in test_sha256
          (λ m. when (is_some (billed_user test_sha256 fresh_state m)) (tokens test_sha256 m))
          total
          0
          three_requests
org_tokens_used_example = org_tokens_used-record_all test_sha256 three_requests fresh_state total 0

abbrev three_snapshot : Restored
three_snapshot = snapshot_of (replayed test_sha256 fresh_state three_requests)

restore_usage_example :
    (IsUpToDate test_sha256 fresh_state three_snapshot three_requests
      × (restore_usage test_sha256 fresh_state (some three_snapshot) three_requests
          ≡ with_restored fresh_state three_snapshot))
    ⊎ (¬ IsUpToDate test_sha256 fresh_state three_snapshot three_requests
        × (restore_usage test_sha256 fresh_state (some three_snapshot) three_requests
            ≡ replayed test_sha256 fresh_state three_requests))
restore_usage_example =
    restore_usage-IsUpToDate test_sha256 fresh_state three_snapshot three_requests
