-- ===== src/Routing/Authorized.antt =====
-- What a routed request has passed.
use mathlib.Core.Path.{subst}
use molenkopf.Base.{
  String, ◌≡◌, refl, sym, ◌∙◌, inl, inr, Bool, true, false, ◌&&◌, Option, none, some, List, [], ◌∷◌,
  arith, eq_refl, Bool-cases, Option-cases, is_some, filter, find, lookup,
}
use molenkopf.Client.{ClientIdentity, Headers, client_id_for_agent}
use molenkopf.Runtime.{ProviderConfig, RuntimeState, RoutingMode, manual, distribute}
use molenkopf.Routing.Access.{provider_allowed_for_client}
use molenkopf.Routing.Distribution.{choose_by_distribution}
use molenkopf.Routing.Providers.{
  is_on, has_id, active_provider, distribution_eligible, enabled_provider,
}
use molenkopf.Routing.Providers.Laws.{find-holds, find-any, IsSelectable, selected-IsSelectable}
use molenkopf.Usage.{set_text}
use molenkopf.Routing.{
  pinned, route_by_mode, routed, require_provider_access, eligible, shares_of, distributed,
  route_unpinned, route_pinned, route_agent, resolve_routing, clean_agent_id, consumer_budget_of,
  limit_reached, draft_of, config_of, draft_disabled, draft_limit, config_off, is_own_key,
}

-- The provider is configured, open to the client, and enabled unless none is.
pub record IsOpen (s : RuntimeState) (client : ClientIdentity) (p : ProviderConfig) : Type 0 where
  pub permitted : provider_allowed_for_client client p.id ≡ true
  pub selectable : IsSelectable s.providers p

require-permits :
    (client : ClientIdentity) (o : Option ProviderConfig) (p : ProviderConfig)
    → require_provider_access client o ≡ routed p
    → (o ≡ some p) × (provider_allowed_for_client client p.id ≡ true)
unfolding require_provider_access
require-permits client none p e = absurd (cc e)
require-permits client (some q) p e = elim (Bool-cases (provider_allowed_for_client client q.id)) [
  | inl h ↦ (ground arith, ground arith)
  | inr h ↦ absurd (ground arith)
]

find-filter {ℓ} :
    {A : Type ℓ} (p q : A → Bool) (xs : List A) → find p (filter q xs) ≡ find (λ x. q x && p x) xs
find-filter p q [] = refl
find-filter p q (x ∷ xs) = ground (arith, find-filter p q xs, Bool-cases (q x))

-- The test that an eligible provider passes.
abbrev is_eligible : ClientIdentity → ProviderConfig → Bool
is_eligible client p = distribution_eligible p && provider_allowed_for_client client p.id

eligible-on : (p : ProviderConfig) → distribution_eligible p ≡ true → is_on p ≡ true
unfolding distribution_eligible
eligible-on p h = ground arith

IsOpen-of_found :
    (s : RuntimeState) (client : ClientIdentity) (id : String) (p : ProviderConfig)
    → find (has_id id) (eligible s client) ≡ some p
    → IsOpen s client p
IsOpen-of_found s client id p e =
    let test : ProviderConfig → Bool = λ q. is_eligible client q && has_id id q in
    let found : find test s.providers ≡ some p =
      sym (find-filter (has_id id) (is_eligible client) s.providers) ∙ e in
    let passes = find-holds test s.providers found in
    let on = eligible-on p (ground arith) in
    record {
      permitted = ground arith;
      selectable = record {
        listed = find-any test (has_id p.id) s.providers found (eq_refl p.id);
        on_listed = λ _.
            find-any test (λ q. has_id p.id q && is_on q) s.providers found
              (ground (arith, eq_refl p.id));
        on_if_any = λ _. on;
      };
    }

distributed-IsOpen :
    (s : RuntimeState) (client : ClientIdentity) (p : ProviderConfig)
    → distributed s client ≡ some p
    → IsOpen s client p
unfolding distributed
distributed-IsOpen s client p e =
    elim (Option-cases (choose_by_distribution (shares_of s client))) [
      | inl n ↦ absurd (cc (rw n at e))
      | inr (id, n) ↦ IsOpen-of_found s client id p (rw n at e)
    ]

required-IsOpen :
    (s : RuntimeState) (client : ClientIdentity) (o : Option ProviderConfig) (p : ProviderConfig)
    → ((q : ProviderConfig) → o ≡ some q → IsSelectable s.providers q)
    → require_provider_access client o ≡ routed p
    → IsOpen s client p
required-IsOpen s client o p selectable e =
    let (same, permitted) = require-permits client o p e in
    record { permitted = permitted; selectable = selectable p same }

active-IsSelectable :
    (s : RuntimeState) (q : ProviderConfig)
    → active_provider s ≡ some q
    → IsSelectable s.providers q
unfolding active_provider
active-IsSelectable s q e = selected-IsSelectable s.providers s.active_provider_id {p = q} e

enabled-IsSelectable :
    (s : RuntimeState) (id : String) (q : ProviderConfig)
    → enabled_provider s id ≡ some q
    → IsSelectable s.providers q
enabled-IsSelectable s id q e = selected-IsSelectable s.providers id {p = q} (rw e refl)

by_mode-IsOpen :
    (s : RuntimeState) (client : ClientIdentity) (mode : RoutingMode) (p : ProviderConfig)
    → route_by_mode s client mode ≡ routed p
    → IsOpen s client p
by_mode-IsOpen s client manual p e =
    required-IsOpen s client (active_provider s) p (active-IsSelectable s) e
by_mode-IsOpen s client distribute p e = elim (Option-cases (distributed s client)) [
  | inl n ↦ absurd (ground arith)
  | inr (q, n) ↦ distributed-IsOpen s client p (ground arith)
]

unpinned-IsOpen :
    (s : RuntimeState) (client : ClientIdentity) (p : ProviderConfig)
    → route_unpinned s client ≡ routed p
    → IsOpen s client p
unfolding route_unpinned
unpinned-IsOpen s client p e = by_mode-IsOpen s client s.routing_mode p e

pinned-IsOpen :
    (s : RuntimeState) (client : ClientIdentity) (o : Option String) (p : ProviderConfig)
    → route_pinned s client o ≡ routed p
    → IsOpen s client p
unfolding route_pinned
pinned-IsOpen s client none p e = unpinned-IsOpen s client p e
pinned-IsOpen s client (some id) p e = elim (Option-cases (enabled_provider s id)) [
  | inl n ↦ absurd (ground arith)
  | inr (q, n) ↦
      required-IsOpen s client (some q) p (λ r h. enabled-IsSelectable s id r (n ∙ h))
        (ground arith)
]

module _ (sha256 : String → String) where
  -- The agent is not disabled, is within its limit, and is the key's own where it is a configured one.
  pub record IsAgentOpen (s : RuntimeState) (client : ClientIdentity) (id : String) : Type 0 where
    pub draft_on : draft_disabled (draft_of s id) ≡ false
    pub within_limit :
        limit_reached s (client_id_for_agent sha256 id) (draft_limit (draft_of s id)) ≡ false
    pub config_on : config_off (config_of s id) ≡ false
    pub own_key : is_some (config_of s id) ≡ true → is_own_key client id ≡ true

  agent-IsOpen :
      (s : RuntimeState) (client : ClientIdentity) (id : String) (p : ProviderConfig)
      → route_agent sha256 s client id ≡ routed p
      → IsAgentOpen s client id × IsOpen s client p
  unfolding route_agent
  agent-IsOpen s client id p e = (
    record {
      draft_on = ground arith;
      within_limit = ground arith;
      config_on = ground arith;
      own_key = λ h. ground arith;
    },
    pinned-IsOpen s client (set_text (pinned (draft_of s id) (config_of s id))) p (ground arith),
  )

  -- What a routed request has passed: its client is within its budget, its agent, where the header
  -- names one, is open to it, and the provider is configured, permitted to the client, and enabled
  -- unless no provider is.
  pub record IsAuthorized (s : RuntimeState) (headers : Headers) (client : ClientIdentity)
      (p : ProviderConfig) : Type 0 where
    pub within_budget : limit_reached s client.id (consumer_budget_of sha256 s client) ≡ false
    pub agent_open :
        (id : String)
        → clean_agent_id (lookup "x-molenkopf-agent" headers) ≡ some id
        → IsAgentOpen s client id
    pub provider_open : IsOpen s client p

  -- A request is routed to a provider only where its client is within its budget; where the agent that
  -- its header names is not disabled, is within its limit, and, if it is a configured agent, is the one
  -- that the client's key is issued for; and where the provider is configured, permitted to the client,
  -- and enabled unless no provider is.
  pub resolve_routing-IsAuthorized :
      (s : RuntimeState) (headers : Headers) (client : ClientIdentity) (p : ProviderConfig)
      → resolve_routing sha256 s headers client ≡ routed p
      → IsAuthorized s headers client p
  unfolding resolve_routing
  resolve_routing-IsAuthorized s headers client p e =
      elim (Bool-cases (limit_reached s client.id (consumer_budget_of sha256 s client))) [
        | inl over ↦ absurd (ground arith)
        | inr within ↦ elim (Option-cases (clean_agent_id (lookup "x-molenkopf-agent" headers))) [
          | inl n ↦ record {
            within_budget = within;
            agent_open = λ id h. absurd (ground arith);
            provider_open = unpinned-IsOpen s client p (ground arith);
          }
          | inr (id, n) ↦
              let both = agent-IsOpen s client id p (ground arith) in
              record {
                within_budget = within;
                agent_open =
                    λ other h. subst (λ (i : String). IsAgentOpen s client i) (ground arith) both.0;
                provider_open = both.1;
              }
        ]
      ]
