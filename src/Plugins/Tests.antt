-- ===== src/Plugins/Tests.antt =====
-- The theorems on plugin policies at two teams, one of which asks for more than it gets.
use molenkopf.Base.{◌≡◌, refl, true, some, [], ◌∷◌, leb, includes}
use molenkopf.Plugins.{
  green, yellow, orange, red, risk_index, no_overrides, PluginPolicyStore, PluginDescriptor,
  PolicyActionCheck, permitted, resolve_action_permission, resolve_boolean_policy,
  resolve_risk_policy, resolve_array_policy, resolve_for, resolve_request_policy, global_of,
}
use molenkopf.Plugins.Bounds.{
  IsWithin, IsGranted, resolve_request_policy-IsWithin, resolve_action_permission-IsGranted,
}
use molenkopf.Plugins.Merge.{each_team, resolve_for-all}

abbrev compressor : PluginDescriptor
compressor = record {
  id = "compressor";
  enabled = true;
  max_risk = orange;
  capabilities = "body:read" ∷ "body:write" ∷ [];
  actions = "stats" ∷ "reset" ∷ [];
}

abbrev two_teams : PluginPolicyStore
two_teams = record {
  global_plugin_policy =
      ("compressor", record no_overrides { max_risk = some yellow; actions = some ("stats" ∷ []) })
      ∷ [];
  team_plugin_policies =
      (record {
        team_id = "lab";
        plugin_id = "compressor";
        overrides = record no_overrides {
          max_risk = some red;
          capabilities = some ("body:read" ∷ []);
        };
      })
      ∷ (record {
        team_id = "ops";
        plugin_id = "compressor";
        overrides = record no_overrides { enabled = some true };
      })
      ∷ [];
}

abbrev read_stats : PolicyActionCheck
read_stats = record { id = "stats"; required_capabilities = "body:read" ∷ []; risk = green }

read_stats-permitted :
    resolve_action_permission read_stats
      (resolve_request_policy two_teams compressor ("lab" ∷ "ops" ∷ []))
    ≡ permitted
unfolding resolve_action_permission resolve_request_policy resolve_boolean_policy
    resolve_risk_policy resolve_array_policy
read_stats-permitted = refl

within_example :
    IsWithin compressor
      (global_of two_teams compressor)
      (resolve_request_policy two_teams compressor ("lab" ∷ "ops" ∷ []))
within_example = resolve_request_policy-IsWithin two_teams compressor ("lab" ∷ "ops" ∷ [])

granted_example : IsGranted compressor (global_of two_teams compressor) read_stats
granted_example =
    resolve_action_permission-IsGranted two_teams compressor ("lab" ∷ "ops" ∷ []) read_stats
      read_stats-permitted

all_teams_example :
    ((resolve_for two_teams compressor ("lab" ∷ "ops" ∷ [])).enabled
      ≡ each_team two_teams compressor ("lab" ∷ "ops" ∷ []) (λ p. p.enabled))
    × (includes (resolve_for two_teams compressor ("lab" ∷ "ops" ∷ [])).capabilities "body:write"
        ≡ each_team two_teams compressor
            ("lab" ∷ "ops" ∷ [])
            (λ p. includes p.capabilities "body:write"))
    × (includes (resolve_for two_teams compressor ("lab" ∷ "ops" ∷ [])).actions "body:write"
        ≡ each_team two_teams compressor
            ("lab" ∷ "ops" ∷ [])
            (λ p. includes p.actions "body:write"))
    × (leb 1 (risk_index (resolve_for two_teams compressor ("lab" ∷ "ops" ∷ [])).max_risk)
        ≡ each_team two_teams compressor ("lab" ∷ "ops" ∷ []) (λ p. leb 1 (risk_index p.max_risk)))
all_teams_example = resolve_for-all two_teams compressor "lab" ("ops" ∷ []) "body:write" 1
