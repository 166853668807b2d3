-- ===== src/Config/Accepted.antt =====
-- What a configuration that is accepted satisfies as a whole.
use molenkopf.Base.{
  String, ◌≡◌, refl, ap, Bool, true, Option, none, some, List, [], map, Result, ok, fail, all,
  IsUnique, Dict, lookup,
}
use mathlib.Core.Path.{subst}
use molenkopf.Config.Values.{
  Json, ◌>>=◌, bind-ok, array_value, each_item, assert_unseen, assert_unique,
}
use molenkopf.Config.{
  ProfilePolicy, PluginPolicy, AgentPolicy, PolicyConfig, profile_ids, policy_ids, agent_ids,
  normalize_profile, normalize_profiles, normalize_plugin_policy, normalize_plugin_policies,
  normalize_agent, normalize_agents, normalize_policy_config,
}
use molenkopf.Config.Laws.{
  Holds, Holds-ok, each_item-all, assert_unseen-IsUnique, is_known_profile, enables_known,
  is_served, normalize_profile-known, normalize_plugin_policy-known, normalize_agent-served,
}

abbrev value_or : {A : Type 0} → A → Result {0, 0} String A → A
value_or d (ok a) = a
value_or d (fail e) = d

ok_injective : {A : Type 0} {a b : A} → ◌≡◌ {A = Result {0, 0} String A} (ok a) (ok b) → a ≡ b
ok_injective {a = a} h = ap (value_or a) h

-- What a policy configuration must satisfy.
pub record IsPolicyConfig (builtin provider_ids enabled_ids : List String) (c : PolicyConfig)
    : Type 0 where
  pub profiles_known : all (is_known_profile provider_ids) c.profiles ≡ true
  pub profiles_once : IsUnique (profile_ids c.profiles)
  pub plugins_known : all (enables_known builtin) c.plugin_policies ≡ true
  pub policies_once : IsUnique (policy_ids c.plugin_policies)
  pub agents_served : all (is_served c.profiles provider_ids enabled_ids) c.agents ≡ true
  pub agents_once : IsUnique (agent_ids c.agents)

rows_once :
    {A : Type 0} (p : A → Bool) (key : A → String) (rows : List A) (label : String)
    (checked : List A)
    → (assert_unique (map key rows) label >>= (λ _. ok rows)) ≡ ok checked
    → all p rows ≡ true
    → (all p checked ≡ true) × IsUnique (map key checked)
unfolding assert_unique
rows_once {A = A} p key rows label checked h k =
    let (u, (e, same)) = bind-ok (assert_unseen [] (map key rows) label) (λ _. ok rows) checked h in
    subst (λ (r : List A). (all p r ≡ true) × IsUnique (map key r)) (ok_injective same)
      (k, (assert_unseen-IsUnique [] (map key rows) label u e).1)

normalized_rows :
    {A : Type 0} (p : A → Bool) (key : A → String) (f : Json → String → Result String A)
    (path label : String)
    → ((item : Json) (at : String) → Holds p (f item at))
    → (input : Json) (checked : List A)
    → (array_value input path >>= (λ items.
        each_item f path 0 items
        >>= (λ rows. assert_unique (map key rows) label >>= (λ _. ok rows))))
      ≡ ok checked
    → (all p checked ≡ true) × IsUnique (map key checked)
normalized_rows p key f path label each input checked h =
    let (items, (_, h1)) = bind-ok (array_value input path) _ checked h in
    let (rows, (e, h2)) = bind-ok (each_item f path 0 items) _ checked h1 in
    rows_once p key rows label checked h2
      (Holds-ok (all p) (each_item f path 0 items) rows (each_item-all p f each path 0 items) e)

normalize_profiles-known :
    (input : Option Json) (provider_ids : List String) (ps : List ProfilePolicy)
    → normalize_profiles input provider_ids ≡ ok ps
    → (all (is_known_profile provider_ids) ps ≡ true) × IsUnique (profile_ids ps)
unfolding normalize_profiles
normalize_profiles-known none provider_ids ps h =
    subst
      (λ (r : List ProfilePolicy).
        (all (is_known_profile provider_ids) r ≡ true) × IsUnique (profile_ids r))
      (ok_injective h) (refl, tt)
normalize_profiles-known (some input) provider_ids ps h =
    normalized_rows (is_known_profile provider_ids) (λ p. p.id) (normalize_profile provider_ids)
      "$.profiles" "profile" (normalize_profile-known provider_ids) input ps h

normalize_plugin_policies-known :
    (input : Option Json) (builtin : List String) (ps : List PluginPolicy)
    → normalize_plugin_policies input builtin ≡ ok ps
    → (all (enables_known builtin) ps ≡ true) × IsUnique (policy_ids ps)
unfolding normalize_plugin_policies
normalize_plugin_policies-known none builtin ps h =
    subst
      (λ (r : List PluginPolicy). (all (enables_known builtin) r ≡ true) × IsUnique (policy_ids r))
      (ok_injective h) (refl, tt)
normalize_plugin_policies-known (some input) builtin ps h =
    normalized_rows (enables_known builtin) (λ p. p.id) (normalize_plugin_policy builtin)
      "$.pluginPolicies" "plugin policy" (normalize_plugin_policy-known builtin) input ps h

normalize_agents-served :
    (profiles : List ProfilePolicy) (policies : List PluginPolicy)
    (provider_ids enabled_ids : List String) (input : Option Json) (agents : List AgentPolicy)
    → normalize_agents profiles policies provider_ids enabled_ids input ≡ ok agents
    → (all (is_served profiles provider_ids enabled_ids) agents ≡ true)
      × IsUnique (agent_ids agents)
unfolding normalize_agents
normalize_agents-served profiles policies provider_ids enabled_ids none agents h =
    subst
      (λ (r : List AgentPolicy).
        (all (is_served profiles provider_ids enabled_ids) r ≡ true) × IsUnique (agent_ids r))
      (ok_injective h) (refl, tt)
normalize_agents-served profiles policies provider_ids enabled_ids (some input) agents h =
    normalized_rows (is_served profiles provider_ids enabled_ids) (λ a. a.id)
      (normalize_agent profiles policies provider_ids enabled_ids) "$.agents" "agent"
      (normalize_agent-served profiles policies provider_ids enabled_ids) input agents h

-- A configuration that is accepted has no id twice; each of its profiles names a known provider, and
-- where it has a default model and lists models, the default is among them; each plugin that it enables is built in; and each
-- of its agents has a known provider, which is enabled if the agent is and is that of the profile that
-- the agent names.
pub normalize_policy_config-IsPolicyConfig :
    (builtin : List String) (root : Dict Json) (provider_ids enabled_ids : List String)
    (c : PolicyConfig)
    → normalize_policy_config builtin root provider_ids enabled_ids ≡ ok c
    → IsPolicyConfig builtin provider_ids enabled_ids c
unfolding normalize_policy_config
normalize_policy_config-IsPolicyConfig builtin root provider_ids enabled_ids c h =
    let (profiles, (e, h1)) =
      bind-ok (normalize_profiles (lookup "profiles" root) provider_ids) _ c h in
    let (policies, (f, h2)) =
      bind-ok (normalize_plugin_policies (lookup "pluginPolicies" root) builtin) _ c h1 in
    let (agents, (g, h3)) =
      bind-ok (normalize_agents profiles policies provider_ids enabled_ids (lookup "agents" root)) _
        c h2 in
    let (pk, po) = normalize_profiles-known (lookup "profiles" root) provider_ids profiles e in
    let (ek, eo) =
      normalize_plugin_policies-known (lookup "pluginPolicies" root) builtin policies f in
    let (ak, ao) =
      normalize_agents-served profiles policies provider_ids enabled_ids (lookup "agents" root)
        agents g in
    subst (λ (d : PolicyConfig). IsPolicyConfig builtin provider_ids enabled_ids d)
      (ok_injective h3)
      (record {
        profiles_known = pk;
        profiles_once = po;
        plugins_known = ek;
        policies_once = eo;
        agents_served = ak;
        agents_once = ao;
      })
