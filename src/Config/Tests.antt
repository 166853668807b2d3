-- ===== src/Config/Tests.antt =====
-- The theorem on the policies at a small configuration.
use molenkopf.Base.{◌≡◌, refl, true, none, some, [], ◌∷◌, ok, fail, Dict, trim, is_slug}
use molenkopf.Base.{decimal}
use molenkopf.Config.Values.{
  Json, text, array, object, end_of_array, element, end_of_object, property, id_value, string_value,
  unique_strings, non_empty_unique_ids, each_item, assert_unique, at_index,
}
use molenkopf.Config.{
  PolicyConfig, normalize_policy_config, normalize_profiles, normalize_profile,
  normalize_plugin_policies, normalize_agents, normalize_agent,
}
use molenkopf.Config.Accepted.{IsPolicyConfig, normalize_policy_config-IsPolicyConfig}

abbrev one_element : Json → Json
one_element item = array (element item end_of_array)

abbrev a_profile : Json
a_profile = object (
    property "id" (text "fast") (
      property "providerId" (text "openai") (
        property "allowedModels" (one_element (text " small "))
          (property "defaultModel" (text "small") end_of_object))))

abbrev an_agent : Json
an_agent = object (property "id" (text "bot") (property "profileId" (text "fast") end_of_object))

abbrev a_root : Dict Json
a_root = ("profiles", one_element a_profile) ∷ ("agents", one_element an_agent) ∷ []

abbrev a_config : PolicyConfig
a_config = record {
  profiles =
      record {
        id = "fast";
        provider_id = "openai";
        allowed_models = some ("small" ∷ []);
        default_model = some "small";
      }
      ∷ [];
  plugin_policies = [];
  agents =
      record {
        id = "bot";
        provider_id = "openai";
        enabled = true;
        profile_id = some "fast";
        plugin_policy_id = none;
        scopes = none;
        allowed_models = some ("small" ∷ []);
        default_model = some "small";
        enabled_plugin_ids = none;
      }
      ∷ [];
  first_provider = some "openai";
}

a_config-accepted : normalize_policy_config [] a_root ("openai" ∷ []) ("openai" ∷ []) ≡ ok a_config
unfolding normalize_policy_config normalize_profiles normalize_profile normalize_plugin_policies
    normalize_agents normalize_agent id_value string_value unique_strings non_empty_unique_ids
    each_item assert_unique at_index decimal trim is_slug
a_config-accepted = refl

-- An agent that is enabled needs a provider that is.
disabled_provider :
    normalize_policy_config [] a_root ("openai" ∷ []) [] ≡ fail "agent provider disabled: openai"
unfolding normalize_policy_config normalize_profiles normalize_profile normalize_plugin_policies
    normalize_agents normalize_agent id_value string_value unique_strings non_empty_unique_ids
    each_item assert_unique at_index decimal trim is_slug
disabled_provider = refl

normalize_policy_config_example : IsPolicyConfig [] ("openai" ∷ []) ("openai" ∷ []) a_config
normalize_policy_config_example =
    normalize_policy_config-IsPolicyConfig [] a_root ("openai" ∷ []) ("openai" ∷ []) a_config
      a_config-accepted
