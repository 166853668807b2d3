-- ===== src/Routing.antt =====
-- The provider that a request is sent to, packages/proxy/src/http/agent-router.ts.
pub mod Access
pub mod Distribution
pub mod Providers
pub mod Clients
pub mod Authorized
pub mod Spread
pub mod Tests
use molenkopf.Base.{
  ℕ, zero, suc, ◌+◌, ◌-◌, ◌*◌, ◌/◌, ◌≤◌, ◌<◌, String, ◌≡◌, refl, sym, ap, ◌∙◌, ◌≢◌, ◌↔◌, ◌⊎◌, inl,
  inr, Bool, true, false, ◌&&◌, ◌||◌, not, Option, none, some, List, [], ◌∷◌, ◌++◌, map, arith,
  ◌==◌, eq_iff, eq_refl, ltb, leb, nat_eq, if◌then◌else◌, Bool-cases, Option-cases, or_else,
  or_option, is_some, ◌>>=◌, Result, ok, fail, length, take, drop, filter, find, any, all, All,
  length-append, includes, includes-filter, includes-append, other_than, unique, includes-unique,
  IsUnique, filter-IsUnique, unique-IsUnique, all_mono, all-filter, all-of_includes,
  all-filter_self, all-const, filter-all, Dict, lookup, insert, erase, values, lookup-insert,
  lookup-erase, has, has-erase, all_rows, erase_all, map_values, is_empty, is_space, trim, size,
  every_char, is_digit, is_letter, is_id_char, is_slug,
}
use Prim.Native.String
use molenkopf.Client.{
  ClientIdentity, Headers, Source, api_key, safe_subject_id, client_id_for_agent,
}
use molenkopf.Identity.{flag}
use molenkopf.Runtime.{
  ProviderConfig, RoutingMode, manual, distribute, ResolvedAgent, AgentDraft, UsageTotals,
  RuntimeState,
}
use molenkopf.Usage.{set_text, agent_tokens_used, no_usage, tokens_of}
use molenkopf.Routing.Access.{provider_allowed_for_client}
use molenkopf.Routing.Distribution.{ProviderShare, choose_by_distribution}
use molenkopf.Routing.Providers.{
  active_provider, distribution_eligible, provider_weight, enabled_provider, has_id,
}

-- With the status of the answer in the names' place: 429, 403, 429, 403, 403, 409, 409.
pub data RoutingError : Type 0 where
  consumer_budget agent_disabled agent_token_limit agent_forbidden provider_forbidden
        provider_unavailable no_eligible_provider :
      RoutingError

-- `crashed` is the `TypeError` of a state without providers.
pub data RoutingResult : Type 0 where
  routed : ProviderConfig → RoutingResult
  refused : RoutingError → RoutingResult
  crashed : RoutingResult

-- `if (n)`
abbrev pub set_number : Option ℕ → Option ℕ
set_number none = none
set_number (some zero) = none
set_number (some (suc n)) = some (suc n)

unfoldable pub clean_agent_id : Option String → Option String
unfolding is_slug trim
clean_agent_id none = none
clean_agent_id (some value) = let id = trim value in if is_slug id then some id else none

unfoldable pub require_provider_access : ClientIdentity → Option ProviderConfig → RoutingResult
require_provider_access client none = crashed
require_provider_access client (some p) =
    if provider_allowed_for_client client p.id then routed p else refused provider_forbidden

abbrev pub tokens_for : RuntimeState → String → ℕ
tokens_for s id = tokens_of (or_else (lookup id s.usage_by_provider) no_usage).overall

abbrev pub share_of : RuntimeState → ProviderConfig → ProviderShare
share_of s p = record {
  id = p.id;
  weight = provider_weight s p.id;
  used_tokens = tokens_for s p.id;
}

abbrev pub eligible : RuntimeState → ClientIdentity → List ProviderConfig
eligible s client =
    filter (λ p. distribution_eligible p && provider_allowed_for_client client p.id) s.providers

abbrev pub shares_of : RuntimeState → ClientIdentity → List ProviderShare
shares_of s client = map (share_of s) (eligible s client)

abbrev with_chosen_id : List ProviderConfig → Option String → Option ProviderConfig
with_chosen_id ps none = none
with_chosen_id ps (some id) = find (has_id id) ps

-- `distribute`
unfoldable pub distributed : RuntimeState → ClientIdentity → Option ProviderConfig
distributed s client =
    with_chosen_id (eligible s client) (choose_by_distribution (shares_of s client))

abbrev pub routed_or_none : Option ProviderConfig → RoutingResult
routed_or_none none = refused no_eligible_provider
routed_or_none (some p) = routed p

abbrev pub route_by_mode : RuntimeState → ClientIdentity → RoutingMode → RoutingResult
route_by_mode s client distribute = routed_or_none (distributed s client)
route_by_mode s client manual = require_provider_access client (active_provider s)

-- Without an agent that is bound to a provider.
unfoldable pub route_unpinned : RuntimeState → ClientIdentity → RoutingResult
unfolding distributed require_provider_access
route_unpinned s client = route_by_mode s client s.routing_mode

abbrev pub draft_of : RuntimeState → String → Option AgentDraft
draft_of s id = find (λ (d : AgentDraft). d.id == id) s.agent_drafts

abbrev pub config_of : RuntimeState → String → Option ResolvedAgent
config_of s id = find (λ (a : ResolvedAgent). a.id == id) s.config_agents

abbrev is_api_key : Source → Bool
is_api_key api_key = true
is_api_key _ = false

abbrev labelled : ClientIdentity → String → Bool
labelled client id = elim client.key_agent_label [ none ↦ false | some label ↦ label == id ]

-- The client uses a key that is issued for the agent.
abbrev pub is_own_key : ClientIdentity → String → Bool
is_own_key client id = is_api_key client.source && labelled client id

abbrev pub pinned : Option AgentDraft → Option ResolvedAgent → Option String
pinned (some draft) config = some draft.provider_id
pinned none none = none
pinned none (some config) = some config.provider_id

abbrev pub limit_reached : RuntimeState → String → Option ℕ → Bool
limit_reached s client_id none = false
limit_reached s client_id (some limit) = leb limit (agent_tokens_used s client_id)

abbrev pub draft_disabled : Option AgentDraft → Bool
draft_disabled none = false
draft_disabled (some draft) = flag draft.disabled

abbrev pub draft_limit : Option AgentDraft → Option ℕ
draft_limit none = none
draft_limit (some draft) = set_number draft.token_limit

abbrev pub config_off : Option ResolvedAgent → Bool
config_off none = false
config_off (some agent) = not (or_else agent.enabled true)

unfoldable pub route_pinned : RuntimeState → ClientIdentity → Option String → RoutingResult
unfolding route_unpinned require_provider_access
route_pinned s client none = route_unpinned s client
route_pinned s client (some id) = elim (enabled_provider s id) [
  | none ↦ refused provider_unavailable
  | some p ↦ require_provider_access client (some p)
]

module _ (sha256 : String → String) where
  abbrev legacy_budget : RuntimeState → Option String → Option ℕ
  legacy_budget s none = none
  legacy_budget s (some user_id) =
      lookup (String.◌++◌ "user:" (safe_subject_id sha256 user_id)) s.consumer_budgets

  unfoldable pub consumer_budget_of : RuntimeState → ClientIdentity → Option ℕ
  consumer_budget_of s client =
      or_option (set_number (lookup client.id s.consumer_budgets))
        (set_number (legacy_budget s (set_text client.user_id)))

  -- A request with an agent's id.
  unfoldable pub route_agent : RuntimeState → ClientIdentity → String → RoutingResult
  unfolding route_pinned client_id_for_agent
  route_agent s client id =
      let draft = draft_of s id in
      let config = config_of s id in
      if draft_disabled draft
      then refused agent_disabled
      else if limit_reached s (client_id_for_agent sha256 id) (draft_limit draft)
      then refused agent_token_limit
      else if config_off config
      then refused agent_disabled
      else if is_some config && not (is_own_key client id)
      then refused agent_forbidden
      else route_pinned s client (set_text (pinned draft config))

  unfoldable pub resolve_routing : RuntimeState → Headers → ClientIdentity → RoutingResult
  unfolding consumer_budget_of route_agent clean_agent_id route_unpinned
  resolve_routing s headers client =
      if limit_reached s client.id (consumer_budget_of s client)
      then refused consumer_budget
      else elim (clean_agent_id (lookup "x-molenkopf-agent" headers)) [
        | none ↦ route_unpinned s client
        | some id ↦ route_agent s client id
      ]
