-- ===== src/RequestPolicy.antt =====
-- The models that an agent may ask for, packages/proxy/src/http/request-policy.ts. What `JSON.parse`
-- makes of a body is an argument: `none` where it throws, and of the value what the policy reads.
pub mod Laws
pub mod Tests
use molenkopf.Base.{
  ℕ, zero, suc, ◌+◌, ◌-◌, ◌*◌, ◌/◌, ◌≤◌, ◌<◌, String, ◌≡◌, refl, sym, ap, ◌∙◌, ◌≢◌, ◌↔◌, ◌⊎◌, inl,
  inr, Bool, true, false, ◌&&◌, ◌||◌, not, Option, none, some, List, [], ◌∷◌, ◌++◌, map, arith,
  ◌==◌, eq_iff, eq_refl, ltb, leb, nat_eq, if◌then◌else◌, Bool-cases, Option-cases, or_else,
  or_option, is_some, ◌>>=◌, Result, ok, fail, length, take, drop, filter, find, any, all, All,
  length-append, includes, includes-filter, includes-append, other_than, unique, includes-unique,
  IsUnique, filter-IsUnique, unique-IsUnique, all_mono, all-filter, all-of_includes,
  all-filter_self, all-const, filter-all, Dict, lookup, insert, erase, values, lookup-insert,
  lookup-erase, has, has-erase, all_rows, erase_all, map_values, is_empty, is_space, trim, size,
  every_char, is_digit, is_letter, is_id_char, is_slug,
}
use molenkopf.Client.{ClientIdentity, Headers, agent_id_from_headers}
use molenkopf.Runtime.{ResolvedAgent, AgentDraft, RuntimeState}
use molenkopf.Routing.{draft_of, config_of, is_own_key}

pub record EffectiveRequestPolicy : Type 0 where
  pub agent_id : Option String
  pub allowed_models : Option (List String)
  pub default_model : Option String
  pub enabled_plugin_ids : Option (List String)

abbrev pub no_policy : EffectiveRequestPolicy
no_policy = record {
  agent_id = none;
  allowed_models = none;
  default_model = none;
  enabled_plugin_ids = none;
}

abbrev draft_plugins : Option AgentDraft → Option (List String)
draft_plugins none = none
draft_plugins (some draft) = some draft.enabled_plugin_ids

abbrev policy_of : Option ResolvedAgent → Option AgentDraft → String → EffectiveRequestPolicy
policy_of config draft id = record {
  agent_id = some id;
  allowed_models = (do a ← config; a.allowed_models);
  default_model = (do a ← config; a.default_model);
  enabled_plugin_ids = or_option (draft_plugins draft) (do a ← config; a.enabled_plugin_ids);
}

unfoldable pub effective_request_policy :
    RuntimeState → Headers → ClientIdentity → EffectiveRequestPolicy
effective_request_policy s headers client = elim (agent_id_from_headers headers) [
  | none ↦ no_policy
  | some id ↦
      if is_own_key client id then policy_of (config_of s id) (draft_of s id) id else no_policy
]

-- With its member `model` where that is a text.
pub data ParsedJson : Type 0 where
  null_value no_object : ParsedJson
  object : Option String → ParsedJson

pub data ModelPolicyResult : Type 0 where
  accepted invalid_json model_forbidden : ModelPolicyResult

-- `as_sent`, or the body with another model.
pub data DefaultModelResult : Type 0 where
  as_sent unreadable : DefaultModelResult
  with_model : String → DefaultModelResult

-- A text that is more than white space, without the white space around it.
abbrev pub model_text : Option String → Option String
model_text none = none
model_text (some m) = if is_empty (trim m) then none else some (trim m)

-- `modelFromBody`: `none` where the body cannot be read; reading a member of null throws.
unfoldable pub model_from_body : Option ParsedJson → Option (Option String)
model_from_body none = none
model_from_body (some null_value) = none
model_from_body (some no_object) = some none
model_from_body (some (object m)) = some (model_text m)

abbrev checked_model : List String → Option (Option String) → ModelPolicyResult
checked_model allowed none = invalid_json
checked_model allowed (some none) = accepted
checked_model allowed (some (some m)) = if includes allowed m then accepted else model_forbidden

abbrev pub checked_by : Option (List String) → Option ParsedJson → ModelPolicyResult
checked_by none body = accepted
checked_by (some []) body = accepted
checked_by (some (m ∷ ms)) body = checked_model (m ∷ ms) (model_from_body body)

unfoldable pub enforce_model_policy : EffectiveRequestPolicy → Option ParsedJson → ModelPolicyResult
unfolding model_from_body
enforce_model_policy policy body = checked_by policy.allowed_models body

abbrev pub with_default : String → Option ParsedJson → DefaultModelResult
with_default m none = unreadable
with_default m (some null_value) = as_sent
with_default m (some no_object) = as_sent
with_default m (some (object model)) = if is_some (model_text model) then as_sent else with_model m

abbrev pub defaulted : Option String → Option ParsedJson → DefaultModelResult
defaulted none body = as_sent
defaulted (some m) body = if is_empty m then as_sent else with_default m body

unfoldable pub apply_default_model : EffectiveRequestPolicy → Option ParsedJson → DefaultModelResult
apply_default_model policy body = defaulted policy.default_model body

-- What `JSON.parse` makes of the body that is sent on.
abbrev pub sent_on : Option ParsedJson → DefaultModelResult → Option ParsedJson
sent_on body as_sent = body
sent_on body unreadable = none
sent_on body (with_model m) = some (object (some m))
