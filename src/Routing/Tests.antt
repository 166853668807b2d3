-- ===== src/Routing/Tests.antt =====
-- The theorems on routing at two providers and a request with a key.
use molenkopf.Base.{Memᴰ, ◌<◌}
use molenkopf.Base.{
  String, ◌≡◌, refl, true, false, ◌||◌, none, some, List, [], ◌∷◌, ◌==◌, is_some, filter, any,
  lookup,
}
use molenkopf.Identity.Tests.{test_data, test_hash}
use molenkopf.Identity.ApiKeys.{authenticate_key, equal_hex, key_usable}
use molenkopf.Client.{Headers}
use molenkopf.Runtime.{ProviderConfig, api, RuntimeState, distribute}
use molenkopf.Usage.Tests.{fresh_state, test_sha256}
use molenkopf.Budget.Tests.{ada_identity}
use molenkopf.Routing.Access.{provider_allowed_for_client}
use molenkopf.Routing.Distribution.{
  ProviderShare, choose_by_distribution, is_enabled_share, best_share, best_from,
}
use molenkopf.Routing.Distribution.Share.{
  IsChosen, choose_by_distribution-IsChosen, choose_by_distribution-is_some,
}
use molenkopf.Routing.Providers.{distribution_eligible, provider_weight}
use molenkopf.Routing.Clients.{
  presented_secret, strip_molenkopf_auth_headers, resolve_client_identity,
}
use molenkopf.Routing.Clients.Laws.{
  IsResolved, strip_molenkopf_auth_headers-strips, resolve_client_identity-IsResolved,
}
use molenkopf.Routing.{resolve_routing, routed, distributed}
use molenkopf.Routing.Authorized.{IsAuthorized, resolve_routing-IsAuthorized}
use molenkopf.Routing.Spread.{takes_part, distributed-is_some}

abbrev a_provider : String → ProviderConfig
a_provider id = record {
  id = id;
  name = id;
  kind = api;
  target = "https://example.invalid";
  credential_env = none;
  credential_ref = none;
  credential_value = none;
  auth_scheme = none;
  runtime_auth_dir = none;
  allow_distribution = none;
  allow_client_credential_forwarding = none;
  enabled = none;
}

abbrev shared_state : RuntimeState
shared_state = record fresh_state {
  providers = a_provider "default" ∷ a_provider "openai" ∷ a_provider "local" ∷ [];
  routing_mode = distribute;
  active_provider_id = "gone";
  provider_weights = ("openai", 80) ∷ ("local", 20) ∷ [];
}

abbrev key_headers : Headers
key_headers = ("authorization", "Bearer mk_ada") ∷ ("x-trace", "7") ∷ []

abbrev two_shares : List ProviderShare
two_shares =
    (record { id = "openai"; weight = 80; used_tokens = 900 })
    ∷ (record { id = "local"; weight = 20; used_tokens = 50 })
    ∷ []

two_shares-local : choose_by_distribution two_shares ≡ some "local"
unfolding choose_by_distribution best_share best_from
two_shares-local = refl

two_shares_example :
    (chosen : ProviderShare) × (chosen.id ≡ "local")
    × Memᴰ chosen two_shares
    × (0 < chosen.weight)
    × IsChosen (filter is_enabled_share two_shares) chosen
two_shares_example = choose_by_distribution-IsChosen two_shares "local" two_shares-local

some_share_example : is_some (choose_by_distribution two_shares) ≡ any is_enabled_share two_shares
some_share_example = choose_by_distribution-is_some two_shares

distributed_example :
    is_some (distributed shared_state ada_identity)
    ≡ any (takes_part shared_state ada_identity) shared_state.providers
distributed_example = distributed-is_some shared_state ada_identity

shared_state-routed :
    resolve_routing test_sha256 shared_state key_headers ada_identity ≡ routed (a_provider "openai")
unfolding resolve_routing choose_by_distribution distribution_eligible provider_allowed_for_client
    provider_weight
shared_state-routed = refl

resolve_routing_example :
    IsAuthorized test_sha256 shared_state key_headers ada_identity (a_provider "openai")
resolve_routing_example =
    resolve_routing-IsAuthorized test_sha256 shared_state key_headers ada_identity
      (a_provider "openai") shared_state-routed

strip_example :
    (presented_secret (strip_molenkopf_auth_headers key_headers) ≡ none)
    × ((name : String)
        → (("x-molenkopf-token" == name) || ("authorization" == name) || ("x-api-key" == name))
          ≡ false
        → lookup name (strip_molenkopf_auth_headers key_headers) ≡ lookup name key_headers)
strip_example = strip_molenkopf_auth_headers-strips key_headers

key_headers-ok :
    (resolve_client_identity test_sha256 test_hash (some test_data) key_headers).key_ok ≡ true
unfolding resolve_client_identity authenticate_key equal_hex key_usable
key_headers-ok = refl

resolve_client_example :
    IsResolved test_hash test_data key_headers
      (resolve_client_identity test_sha256 test_hash (some test_data) key_headers).client
resolve_client_example =
    resolve_client_identity-IsResolved test_sha256 test_hash test_data key_headers key_headers-ok
