-- ===== src/Config.antt =====
-- The policies of the configuration file, packages/core/src/config/config-policies.ts. The plugin ids
-- that are built in and the ids of the providers are arguments; an error is its message.
pub mod Values
pub mod Laws
pub mod Accepted
pub mod Tests
use molenkopf.Base.{
  ℕ, zero, suc, ◌+◌, ◌-◌, ◌*◌, ◌/◌, ◌≤◌, ◌<◌, String, ◌≡◌, refl, sym, ap, ◌∙◌, ◌≢◌, ◌↔◌, ◌⊎◌, inl,
  inr, Bool, true, false, ◌&&◌, ◌||◌, not, Option, none, some, List, [], ◌∷◌, ◌++◌, map, arith,
  ◌==◌, eq_iff, eq_refl, ltb, leb, nat_eq, if◌then◌else◌, Bool-cases, Option-cases, or_else,
  or_option, is_some, Result, ok, fail, length, take, drop, filter, find, any, all, All,
  length-append, includes, includes-filter, includes-append, other_than, unique, includes-unique,
  IsUnique, filter-IsUnique, unique-IsUnique, all_mono, all-filter, all-of_includes,
  all-filter_self, all-const, filter-all, Dict, lookup, insert, erase, values, lookup-insert,
  lookup-erase, has, has-erase, all_rows, erase_all, map_values, is_empty, is_space, trim, size,
  every_char, is_digit, is_letter, is_id_char, is_slug,
}
use Prim.Native.String
use molenkopf.Config.Values.{
  Json, boolean, Checked, ◌>>=◌, optional, required, record_value, array_value, string_value,
  boolean_value, text_of, id_value, optional_id, string_or_undefined, unique_strings,
  non_empty_unique_ids, each_item, assert_unique,
}

pub record ProfilePolicy : Type 0 where
  pub id : String
  pub provider_id : String
  pub allowed_models : Option (List String)
  pub default_model : Option String

pub record PluginPolicy : Type 0 where
  pub id : String
  pub enabled_plugin_ids : Option (List String)

pub record AgentPolicy : Type 0 where
  pub id : String
  pub provider_id : String
  pub enabled : Bool
  pub profile_id : Option String
  pub plugin_policy_id : Option String
  pub scopes : Option (List String)
  pub allowed_models : Option (List String)
  pub default_model : Option String
  pub enabled_plugin_ids : Option (List String)

abbrev pub profile_ids : List ProfilePolicy → List String
profile_ids ps = map (λ p. p.id) ps

abbrev pub policy_ids : List PluginPolicy → List String
policy_ids ps = map (λ p. p.id) ps

abbrev pub agent_ids : List AgentPolicy → List String
agent_ids agents = map (λ a. a.id) agents

-- `byId.get(id)`; the ids are unique.
abbrev pub profile_by_id : List ProfilePolicy → String → Option ProfilePolicy
profile_by_id ps id = find (λ p. p.id == id) ps

abbrev pub policy_by_id : List PluginPolicy → String → Option PluginPolicy
policy_by_id ps id = find (λ p. p.id == id) ps

-- An error unless the test holds, before the rest.
abbrev pub ensure {ℓ} : {E : Type 0} {A : Type ℓ} → Bool → E → Result E A → Result E A
ensure test error rest = if test then rest else fail error

abbrev pub lists_default : Option String → Option (List String) → Bool
lists_default none models = true
lists_default (some model) none = true
lists_default (some model) (some models) = is_empty model || includes models model

abbrev pub path_of : String → String → String
path_of path field = text_of path field

unfoldable pub normalize_profile : List String → Json → String → Result String ProfilePolicy
unfolding id_value unique_strings string_value
normalize_profile provider_ids item path = record_value item path >>= (λ profile.
    required id_value (lookup "id" profile) (path_of path ".id") >>= (λ id.
      required id_value (lookup "providerId" profile) (path_of path ".providerId")
      >>= (λ provider_id.
          ensure (includes provider_ids provider_id)
            (text_of "unknown provider in profile: " provider_id)
            (unique_strings (lookup "allowedModels" profile) (path_of path ".allowedModels")
              >>= (λ allowed_models.
                  string_or_undefined (lookup "defaultModel" profile) (path_of path ".defaultModel")
                  >>= (λ default_model.
                      ensure (lists_default default_model allowed_models)
                        (text_of "default model not allowed: " id)
                        (ok (record {
                          id = id;
                          provider_id = provider_id;
                          allowed_models = allowed_models;
                          default_model = default_model;
                        }))))))))

unfoldable pub normalize_profiles : Option Json → List String → Result String (List ProfilePolicy)
unfolding normalize_profile each_item assert_unique
normalize_profiles none provider_ids = ok []
normalize_profiles (some input) provider_ids = array_value input "$.profiles" >>= (λ items.
    each_item (normalize_profile provider_ids) "$.profiles" 0 items
    >>= (λ profiles. assert_unique (profile_ids profiles) "profile" >>= (λ _. ok profiles)))

abbrev pub is_true : Option Json → Bool
is_true (some (boolean true)) = true
is_true _ = false

abbrev pub known_plugins : List String → List String → Checked
known_plugins builtin [] = ok tt
known_plugins builtin (id ∷ ids) =
    ensure (includes builtin id) (text_of "unknown enabled plugin id: " id)
      (known_plugins builtin ids)

abbrev pub known_policy : List String → String → Option (List String) → Result String PluginPolicy
known_policy builtin id ids =
    known_plugins builtin (or_else ids [])
    >>= (λ _. ok (record { id = id; enabled_plugin_ids = ids }))

unfoldable pub normalize_plugin_policy : List String → Json → String → Result String PluginPolicy
unfolding id_value unique_strings
normalize_plugin_policy builtin item path = record_value item path >>= (λ policy.
    required id_value (lookup "id" policy) (path_of path ".id") >>= (λ id.
      ensure (not (is_true (lookup "remotePlugins" policy)))
        (text_of "remote plugins unsupported: " id)
        (unique_strings (lookup "enabledPluginIds" policy) (path_of path ".enabledPluginIds")
          >>= (λ ids. known_policy builtin id ids))))

unfoldable pub normalize_plugin_policies :
    Option Json → List String → Result String (List PluginPolicy)
unfolding normalize_plugin_policy each_item assert_unique
normalize_plugin_policies none builtin = ok []
normalize_plugin_policies (some input) builtin = array_value input "$.pluginPolicies" >>= (λ items.
    each_item (normalize_plugin_policy builtin) "$.pluginPolicies" 0 items
    >>= (λ policies. assert_unique (policy_ids policies) "plugin policy" >>= (λ _. ok policies)))

-- The row that an agent names; the message where there is none.
abbrev pub named {ℓ} :
    {A : Type ℓ} → (String → Option A) → Option String → String → Result String (Option A)
named find_row none message = ok none
named find_row (some id) message = elim (find_row id) [
  | none ↦ fail (text_of message id)
  | some row ↦ ok (some row)
]

-- The provider that the agent names itself, or that of its profile.
abbrev pub agent_provider :
    Option Json → Option ProfilePolicy → String → String → Result String String
agent_provider (some value) profile id path = id_value value path
agent_provider none (some profile) id path = ok profile.provider_id
agent_provider none none id path = fail (text_of "agent requires provider or profile: " id)

abbrev pub enabled_value : Option Json → String → Result String Bool
enabled_value none path = ok true
enabled_value (some value) path = boolean_value value path

abbrev pub models_of : Option ProfilePolicy → Option (List String)
models_of none = none
models_of (some profile) = profile.allowed_models

abbrev pub default_of : Option ProfilePolicy → Option String
default_of none = none
default_of (some profile) = profile.default_model

abbrev pub plugins_of : Option PluginPolicy → Option (List String)
plugins_of none = none
plugins_of (some policy) = policy.enabled_plugin_ids

module _ (profiles : List ProfilePolicy) (policies : List PluginPolicy)
    (provider_ids enabled_provider_ids : List String) where
  -- The agent with a provider, which must be known, and be enabled if the agent is.
  abbrev pub agent_with :
      Dict Json
      → String
      → String
      → Bool
      → Option String
      → Option String
      → Option ProfilePolicy
      → Option PluginPolicy
      → String
      → Result String AgentPolicy
  agent_with agent path id enabled profile_id policy_id profile policy provider_id =
      ensure (includes provider_ids provider_id) (text_of "unknown provider in agent: " provider_id)
        (ensure (not enabled || includes enabled_provider_ids provider_id)
          (text_of "agent provider disabled: " provider_id)
          (non_empty_unique_ids (lookup "scopes" agent) (path_of path ".scopes") >>= (λ scopes.
            ok (record {
              id = id;
              provider_id = provider_id;
              enabled = enabled;
              profile_id = profile_id;
              plugin_policy_id = policy_id;
              scopes = scopes;
              allowed_models = models_of profile;
              default_model = default_of profile;
              enabled_plugin_ids = plugins_of policy;
            }))))

  unfoldable pub normalize_agent : Json → String → Result String AgentPolicy
  unfolding id_value non_empty_unique_ids
  normalize_agent item path = record_value item path >>= (λ agent.
      required id_value (lookup "id" agent) (path_of path ".id") >>= (λ id.
        enabled_value (lookup "enabled" agent) (path_of path ".enabled") >>= (λ enabled.
          optional_id (lookup "profileId" agent) (path_of path ".profileId") >>= (λ profile_id.
            optional_id (lookup "pluginPolicyId" agent) (path_of path ".pluginPolicyId")
            >>= (λ policy_id.
                named (profile_by_id profiles) profile_id "unknown profile in agent: "
                >>= (λ profile.
                    named (policy_by_id policies) policy_id "unknown plugin policy in agent: "
                    >>= (λ policy.
                        ensure (not (is_some (lookup "providerId" agent) && is_some profile_id))
                          (text_of "conflicting provider/profile in agent: " id)
                          (agent_provider (lookup "providerId" agent) profile id
                              (path_of path ".providerId")
                            >>= (λ provider_id.
                                agent_with agent path id enabled profile_id policy_id profile policy
                                  provider_id)))))))))

  unfoldable pub normalize_agents : Option Json → Result String (List AgentPolicy)
  unfolding normalize_agent each_item assert_unique
  normalize_agents none = ok []
  normalize_agents (some input) = array_value input "$.agents" >>= (λ items.
      each_item normalize_agent "$.agents" 0 items
      >>= (λ agents. assert_unique (agent_ids agents) "agent" >>= (λ _. ok agents)))

pub record PolicyConfig : Type 0 where
  pub profiles : List ProfilePolicy
  pub plugin_policies : List PluginPolicy
  pub agents : List AgentPolicy
  pub first_provider : Option String

abbrev pub first_provider_of : List ProfilePolicy → Option String
first_provider_of [] = none
first_provider_of (p ∷ ps) = some p.provider_id

unfoldable pub normalize_policy_config :
    List String → Dict Json → List String → List String → Result String PolicyConfig
unfolding normalize_profiles normalize_plugin_policies normalize_agents
normalize_policy_config builtin root provider_ids enabled_provider_ids =
    normalize_profiles (lookup "profiles" root) provider_ids >>= (λ profiles.
      normalize_plugin_policies (lookup "pluginPolicies" root) builtin >>= (λ policies.
        normalize_agents profiles policies provider_ids enabled_provider_ids (lookup "agents" root)
        >>= (λ agents. ok (record {
          profiles = profiles;
          plugin_policies = policies;
          agents = agents;
          first_provider = first_provider_of profiles;
        }))))
