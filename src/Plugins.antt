-- ===== src/Plugins.antt =====
-- What the plugins may do, but for their settings: the policies of the default, the organization and
-- a team, packages/core/src/plugins/plugin-policy-types.ts and plugin-policy-resolve.ts, and of all
-- the teams of a request, packages/proxy/src/http/runtime-plugin-policy.ts. Risks that are none of
-- the four are refused before, by the types. The ids of the descriptors differ, so that a map by id
-- is a function of the descriptor.
pub mod Bounds
pub mod Merge
pub mod Tests
use molenkopf.Base.{
  ℕ, zero, suc, ◌+◌, ◌-◌, ◌*◌, ◌/◌, ◌≤◌, ◌<◌, String, ◌≡◌, refl, sym, ap, ◌∙◌, ◌≢◌, ◌↔◌, ◌⊎◌, inl,
  inr, Bool, true, false, ◌&&◌, ◌||◌, not, Option, none, some, List, [], ◌∷◌, ◌++◌, map, arith,
  ◌==◌, eq_iff, eq_refl, ltb, leb, nat_eq, if◌then◌else◌, Bool-cases, Option-cases, or_else,
  or_option, is_some, ◌>>=◌, Result, ok, fail, length, take, drop, filter, find, any, all, All,
  length-append, includes, includes-filter, includes-append, other_than, unique, includes-unique,
  IsUnique, filter-IsUnique, unique-IsUnique, all_mono, all-filter, all-of_includes,
  all-filter_self, all-const, filter-all, Dict, lookup, insert, erase, values, lookup-insert,
  lookup-erase, has, has-erase, all_rows, erase_all, map_values, is_empty, is_space, trim, size,
  every_char, is_digit, is_letter, is_id_char, is_slug,
}
use molenkopf.Identity.{Role, admin, manager, member}
use molenkopf.Identity.TeamScope.{effective_policy_team_ids}

pub data PluginRisk : Type 0 where
  green yellow orange red : PluginRisk

-- `RISK_INDEX`
abbrev pub risk_index : PluginRisk → ℕ
risk_index green = 0
risk_index yellow = 1
risk_index orange = 2
risk_index red = 3

pub data PolicyDecisionSource : Type 0 where
  by_global by_team by_block : PolicyDecisionSource

pub record PluginPolicyOverrides : Type 0 where
  pub enabled : Option Bool
  pub max_risk : Option PluginRisk
  pub capabilities : Option (List String)
  pub actions : Option (List String)

abbrev pub no_overrides : PluginPolicyOverrides
no_overrides = record { enabled = none; max_risk = none; capabilities = none; actions = none }

pub record TeamPluginPolicy : Type 0 where
  pub team_id : String
  pub plugin_id : String
  pub overrides : PluginPolicyOverrides

pub record PluginPolicyStore : Type 0 where
  pub global_plugin_policy : Dict PluginPolicyOverrides
  pub team_plugin_policies : List TeamPluginPolicy

-- The descriptor's id with its `defaultPolicy`.
pub record PluginDescriptor : Type 0 where
  pub id : String
  pub enabled : Bool
  pub max_risk : PluginRisk
  pub capabilities : List String
  pub actions : List String

pub record ResolvedPluginPolicy : Type 0 where
  pub plugin_id : String
  pub enabled : Bool
  pub max_risk : PluginRisk
  pub capabilities : List String
  pub actions : List String
  pub enabled_source : PolicyDecisionSource
  pub max_risk_source : PolicyDecisionSource
  pub capabilities_source : PolicyDecisionSource
  pub actions_source : PolicyDecisionSource
  pub blocked_reasons : List String

-- A field's value with its source and the reasons that it adds.
pub record Decided {ℓ} (A : Type ℓ) : Type ℓ where
  pub value : A
  pub source : PolicyDecisionSource
  pub blocked : List String

abbrev pub inherited {ℓ} : {A : Type ℓ} → A → Decided A
inherited a = record { value = a; source = by_global; blocked = [] }

unfoldable pub resolve_boolean_policy : Bool → Option Bool → Option Bool → Decided Bool
resolve_boolean_policy default_value global none = inherited (or_else global default_value)
resolve_boolean_policy default_value (some false) (some true) = record {
  value = false;
  source = by_block;
  blocked = "team_disabled" ∷ [];
}
resolve_boolean_policy default_value global (some team) = record {
  value = team;
  source = by_team;
  blocked = [];
}

unfoldable pub resolve_risk_policy :
    PluginRisk → Option PluginRisk → Option PluginRisk → Decided PluginRisk
resolve_risk_policy default_risk global none = inherited (or_else global default_risk)
resolve_risk_policy default_risk global (some team) =
    let effective = or_else global default_risk in
    if ltb (risk_index effective) (risk_index team)
    then record { value = effective; source = by_block; blocked = "team_risk_exceeds_global" ∷ [] }
    else record { value = team; source = by_team; blocked = [] }

abbrev pub after_global : List String → Option (List String) → List String
after_global default_value none = default_value
after_global default_value (some global) = filter (includes global) default_value

unfoldable pub resolve_array_policy :
    String → List String → Option (List String) → Option (List String) → Decided (List String)
resolve_array_policy reason default_value global none =
    inherited (after_global default_value global)
resolve_array_policy reason default_value global (some team) =
    let allowed = after_global default_value global in
    record {
      value = filter (includes team) allowed;
      source = by_team;
      blocked = if any (λ item. not (includes allowed item)) team then reason ∷ [] else [];
    }

-- The last policy of the team for the plugin.
last_override : List TeamPluginPolicy → String → String → Option PluginPolicyOverrides
last_override [] plugin_id team_id = none
last_override (p ∷ ps) plugin_id team_id =
    or_option (last_override ps plugin_id team_id)
      (if p.team_id == team_id && p.plugin_id == plugin_id then some p.overrides else none)

abbrev pick_team_override : List TeamPluginPolicy → String → Option String → PluginPolicyOverrides
pick_team_override ps plugin_id none = no_overrides
pick_team_override ps plugin_id (some team_id) =
    if is_empty team_id
    then no_overrides
    else or_else (last_override ps plugin_id team_id) no_overrides

abbrev pub global_of : PluginPolicyStore → PluginDescriptor → PluginPolicyOverrides
global_of store d = or_else (lookup d.id store.global_plugin_policy) no_overrides

-- One field after another, with the reasons in this order.
abbrev pub resolved :
    PluginDescriptor → PluginPolicyOverrides → PluginPolicyOverrides → ResolvedPluginPolicy
resolved d global team =
    let enabled = resolve_boolean_policy d.enabled global.enabled team.enabled in
    let max_risk = resolve_risk_policy d.max_risk global.max_risk team.max_risk in
    let capabilities =
      resolve_array_policy "team_capabilities_exceeds_global" d.capabilities global.capabilities
        team.capabilities in
    let actions =
      resolve_array_policy "team_actions_exceeds_global" d.actions global.actions team.actions in
    record {
      plugin_id = d.id;
      enabled = enabled.value;
      max_risk = max_risk.value;
      capabilities = capabilities.value;
      actions = actions.value;
      enabled_source = enabled.source;
      max_risk_source = max_risk.source;
      capabilities_source = capabilities.source;
      actions_source = actions.source;
      blocked_reasons =
          unique
            (enabled.blocked ++ (max_risk.blocked ++ (capabilities.blocked ++ actions.blocked)));
    }

unfoldable pub resolve_effective_plugin_policy :
    PluginDescriptor → PluginPolicyStore → Option String → ResolvedPluginPolicy
unfolding resolve_boolean_policy resolve_risk_policy resolve_array_policy last_override
resolve_effective_plugin_policy d store team_id =
    resolved d (global_of store d) (pick_team_override store.team_plugin_policies d.id team_id)

pub record PolicyActionCheck : Type 0 where
  pub id : String
  pub required_capabilities : List String
  pub risk : PluginRisk

pub data ActionPermission : Type 0 where
  permitted plugin_disabled plugin_action_forbidden plugin_risk_violation
        plugin_capability_violation :
      ActionPermission

unfoldable pub resolve_action_permission :
    PolicyActionCheck → ResolvedPluginPolicy → ActionPermission
resolve_action_permission action policy =
    if not policy.enabled
    then plugin_disabled
    else if not (includes policy.actions action.id)
    then plugin_action_forbidden
    else if ltb (risk_index policy.max_risk) (risk_index action.risk)
    then plugin_risk_violation
    else if any (λ c. not (includes policy.capabilities c)) action.required_capabilities
    then plugin_capability_violation
    else permitted

-- `resolvePluginActionRole`: the role that an action requires, and the user's.
unfoldable pub resolve_plugin_action_role : Role → Role → Bool → Bool
resolve_plugin_action_role member role allow_manager = true
resolve_plugin_action_role admin admin allow_manager = true
resolve_plugin_action_role admin _ allow_manager = false
resolve_plugin_action_role manager admin allow_manager = true
resolve_plugin_action_role manager manager allow_manager = allow_manager
resolve_plugin_action_role manager member allow_manager = false

abbrev pub lower_risk : PluginRisk → PluginRisk → PluginRisk
lower_risk left right = if leb (risk_index left) (risk_index right) then left else right

abbrev pub intersect : List String → List String → List String
intersect left right = filter (includes right) left

abbrev pub merge_two : ResolvedPluginPolicy → ResolvedPluginPolicy → ResolvedPluginPolicy
merge_two merged next = record merged {
  enabled = merged.enabled && next.enabled;
  max_risk = lower_risk merged.max_risk next.max_risk;
  capabilities = intersect merged.capabilities next.capabilities;
  actions = intersect merged.actions next.actions;
  blocked_reasons =
      unique (merged.blocked_reasons ++ (next.blocked_reasons ++ "merged_team_policy" ∷ []));
}

unfoldable pub merge_policies :
    ResolvedPluginPolicy → List ResolvedPluginPolicy → ResolvedPluginPolicy
merge_policies merged [] = merged
merge_policies merged (next ∷ rest) = merge_policies (merge_two merged next) rest

abbrev pub policies_of_teams :
    PluginPolicyStore → PluginDescriptor → List String → List ResolvedPluginPolicy
policies_of_teams store d team_ids =
    map (λ t. resolve_effective_plugin_policy d store (some t)) team_ids

abbrev pub resolve_for : PluginPolicyStore → PluginDescriptor → List String → ResolvedPluginPolicy
resolve_for store d [] = resolve_effective_plugin_policy d store none
resolve_for store d (t ∷ ts) =
    merge_policies (resolve_effective_plugin_policy d store (some t)) (policies_of_teams store d ts)

-- A descriptor's policy in `resolvePolicyMap`.
unfoldable pub resolve_request_policy :
    PluginPolicyStore → PluginDescriptor → List String → ResolvedPluginPolicy
unfolding resolve_effective_plugin_policy merge_policies effective_policy_team_ids
resolve_request_policy store d team_ids = resolve_for store d (effective_policy_team_ids team_ids)

unfoldable pub is_plugin_allowed_for_request :
    PluginPolicyStore → PluginDescriptor → List String → String → Bool
unfolding resolve_request_policy
is_plugin_allowed_for_request store d team_ids capability =
    let policy = resolve_request_policy store d team_ids in
    policy.enabled && includes policy.capabilities capability
