-- ===== src/Plugins/Bounds.antt =====
-- No team gets more of a plugin than the organization gives.
use molenkopf.Base.{
  ◌≤◌, String, ◌≡◌, refl, inl, inr, Bool, true, false, not, Option, none, some, List, [], ◌∷◌,
  arith, ltb, leb, Bool-cases, or_else, any, all, includes, includes-filter,
}
use molenkopf.Identity.TeamScope.{effective_policy_team_ids}
use molenkopf.Plugins.{
  PluginRisk, risk_index, PluginPolicyOverrides, PluginPolicyStore, PluginDescriptor,
  ResolvedPluginPolicy, resolve_boolean_policy, resolve_risk_policy, resolve_array_policy,
  after_global, global_of, resolved, resolve_effective_plugin_policy, PolicyActionCheck, permitted,
  resolve_action_permission, merge_two, merge_policies, policies_of_teams, resolve_for,
  resolve_request_policy,
}

-- A policy within what the default and the organization's overrides give: not enabled where the
-- organization disables the plugin, no higher risk, and no other capability or action.
pub record IsWithin (d : PluginDescriptor) (global : PluginPolicyOverrides)
    (p : ResolvedPluginPolicy) : Type 0 where
  pub enabled_ok : p.enabled ≡ true → or_else global.enabled true ≡ true
  pub risk_ok : risk_index p.max_risk ≤ risk_index (or_else global.max_risk d.max_risk)
  pub capabilities_ok :
      (c : String)
      → includes p.capabilities c ≡ true
      → includes (after_global d.capabilities global.capabilities) c ≡ true
  pub actions_ok :
      (a : String)
      → includes p.actions a ≡ true
      → includes (after_global d.actions global.actions) a ≡ true

boolean-bound :
    (default_value : Bool) (global team : Option Bool)
    → (resolve_boolean_policy default_value global team).value ≡ true
    → or_else global true ≡ true
unfolding resolve_boolean_policy
boolean-bound default_value none none h = refl
boolean-bound default_value none (some team) h = refl
boolean-bound default_value (some true) team h = refl
boolean-bound default_value (some false) none h = cc
boolean-bound default_value (some false) (some true) h = cc
boolean-bound default_value (some false) (some false) h = cc

risk-bound :
    (default_risk : PluginRisk) (global team : Option PluginRisk)
    → risk_index (resolve_risk_policy default_risk global team).value
      ≤ risk_index (or_else global default_risk)
unfolding resolve_risk_policy
risk-bound default_risk global none = omega arith
risk-bound default_risk global (some team) =
    elim (Bool-cases (ltb (risk_index (or_else global default_risk)) (risk_index team))) [
      | inl e ↦ rw e (omega arith)
      | inr e ↦ rw e (ground arith)
    ]

array-bound :
    (reason : String) (default_value : List String) (global team : Option (List String))
    (c : String)
    → includes (resolve_array_policy reason default_value global team).value c ≡ true
    → includes (after_global default_value global) c ≡ true
unfolding resolve_array_policy
array-bound reason default_value global none c h = h
array-bound reason default_value global (some team) c h =
    ground (arith, includes-filter (includes team) (after_global default_value global) c)

resolved-IsWithin :
    (d : PluginDescriptor) (global team : PluginPolicyOverrides)
    → IsWithin d global (resolved d global team)
resolved-IsWithin d global team = record {
  enabled_ok = boolean-bound d.enabled global.enabled team.enabled;
  risk_ok = risk-bound d.max_risk global.max_risk team.max_risk;
  capabilities_ok =
      array-bound "team_capabilities_exceeds_global" d.capabilities global.capabilities
        team.capabilities;
  actions_ok = array-bound "team_actions_exceeds_global" d.actions global.actions team.actions;
}

merge_two-IsWithin :
    (d : PluginDescriptor) (global : PluginPolicyOverrides) (p next : ResolvedPluginPolicy)
    → IsWithin d global p
    → IsWithin d global (merge_two p next)
merge_two-IsWithin d global p next h = record {
  enabled_ok = λ e. h.enabled_ok (ground arith);
  risk_ok = elim (Bool-cases (leb (risk_index p.max_risk) (risk_index next.max_risk))) [
    | inl e ↦ rw e h.risk_ok
    | inr e ↦ let low = h.risk_ok in rw e (ground arith)
  ];
  capabilities_ok = λ c e.
      h.capabilities_ok c
        (ground (arith, includes-filter (includes next.capabilities) p.capabilities c));
  actions_ok =
      λ a e. h.actions_ok a (ground (arith, includes-filter (includes next.actions) p.actions a));
}

merge_policies-IsWithin :
    (d : PluginDescriptor) (global : PluginPolicyOverrides) (p : ResolvedPluginPolicy)
    (rest : List ResolvedPluginPolicy)
    → IsWithin d global p
    → IsWithin d global (merge_policies p rest)
unfolding merge_policies
merge_policies-IsWithin d global p [] h = h
merge_policies-IsWithin d global p (next ∷ rest) h =
    merge_policies-IsWithin d global (merge_two p next) rest (merge_two-IsWithin d global p next h)

effective-IsWithin :
    (store : PluginPolicyStore) (d : PluginDescriptor) (team_id : Option String)
    → IsWithin d (global_of store d) (resolve_effective_plugin_policy d store team_id)
unfolding resolve_effective_plugin_policy
effective-IsWithin store d team_id = resolved-IsWithin d (global_of store d) _

resolve_for-IsWithin :
    (store : PluginPolicyStore) (d : PluginDescriptor) (team_ids : List String)
    → IsWithin d (global_of store d) (resolve_for store d team_ids)
resolve_for-IsWithin store d [] = effective-IsWithin store d none
resolve_for-IsWithin store d (t ∷ ts) =
    merge_policies-IsWithin d (global_of store d) (resolve_effective_plugin_policy d store (some t))
      (policies_of_teams store d ts) (effective-IsWithin store d (some t))

-- Whatever the teams of a request override, the plugin's policy for the request is not enabled where
-- the organization disables the plugin, and has no higher risk and no other capability or action than
-- the default and the organization's overrides give.
pub resolve_request_policy-IsWithin :
    (store : PluginPolicyStore) (d : PluginDescriptor) (team_ids : List String)
    → IsWithin d (global_of store d) (resolve_request_policy store d team_ids)
unfolding resolve_request_policy
resolve_request_policy-IsWithin store d team_ids =
    resolve_for-IsWithin store d (effective_policy_team_ids team_ids)

-- What a permitted action needs of the organization.
pub record IsGranted (d : PluginDescriptor) (global : PluginPolicyOverrides)
    (action : PolicyActionCheck) : Type 0 where
  pub not_disabled : or_else global.enabled true ≡ true
  pub granted : includes (after_global d.actions global.actions) action.id ≡ true
  pub risk_granted : risk_index action.risk ≤ risk_index (or_else global.max_risk d.max_risk)
  pub capabilities_granted :
      all (includes (after_global d.capabilities global.capabilities)) action.required_capabilities
      ≡ true

all_granted :
    (have allowed required : List String)
    → ((c : String) → includes have c ≡ true → includes allowed c ≡ true)
    → any (λ c. not (includes have c)) required ≡ false
    → all (includes allowed) required ≡ true
all_granted have allowed [] h k = refl
all_granted have allowed (c ∷ cs) h k = ground (arith, h c, all_granted have allowed cs h)

permitted-IsGranted :
    (d : PluginDescriptor) (global : PluginPolicyOverrides) (action : PolicyActionCheck)
    (p : ResolvedPluginPolicy)
    → IsWithin d global p
    → resolve_action_permission action p ≡ permitted
    → IsGranted d global action
unfolding resolve_action_permission
permitted-IsGranted d global action p w h = record {
  not_disabled = w.enabled_ok (ground arith);
  granted = w.actions_ok action.id (ground arith);
  risk_granted = let low = w.risk_ok in ground arith;
  capabilities_granted =
      all_granted p.capabilities (after_global d.capabilities global.capabilities)
        action.required_capabilities w.capabilities_ok (ground arith);
}

-- An action of a plugin is permitted for a request only where the organization does not disable the
-- plugin, grants the action and each capability that it requires, and grants its risk.
pub resolve_action_permission-IsGranted :
    (store : PluginPolicyStore) (d : PluginDescriptor) (team_ids : List String)
    (action : PolicyActionCheck)
    → resolve_action_permission action (resolve_request_policy store d team_ids) ≡ permitted
    → IsGranted d (global_of store d) action
resolve_action_permission-IsGranted store d team_ids action h =
    permitted-IsGranted d (global_of store d) action (resolve_request_policy store d team_ids)
      (resolve_request_policy-IsWithin store d team_ids) h
