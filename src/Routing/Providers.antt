-- ===== src/Routing/Providers.antt =====
-- The choice of a provider, packages/proxy/src/http/runtime-state.ts, and what a failed update puts
-- back, packages/proxy/src/http/provider-routing-snapshot.ts. The state is as `createRuntimeState`
-- leaves it, with no field for what routing does not read; the clock is an argument.
pub mod Laws
use molenkopf.Base.{
  ℕ, zero, suc, ◌+◌, ◌-◌, ◌*◌, ◌/◌, ◌≤◌, ◌<◌, String, ◌≡◌, refl, sym, ap, ◌∙◌, ◌≢◌, ◌↔◌, ◌⊎◌, inl,
  inr, Bool, true, false, ◌&&◌, ◌||◌, not, Option, none, some, List, [], ◌∷◌, ◌++◌, map, arith,
  ◌==◌, eq_iff, eq_refl, ltb, leb, nat_eq, if◌then◌else◌, Bool-cases, Option-cases, or_else,
  or_option, is_some, ◌>>=◌, Result, ok, fail, length, take, drop, filter, find, any, all, All,
  length-append, includes, includes-filter, includes-append, other_than, unique, includes-unique,
  IsUnique, filter-IsUnique, unique-IsUnique, all_mono, all-filter, all-of_includes,
  all-filter_self, all-const, filter-all, Dict, lookup, insert, erase, values, lookup-insert,
  lookup-erase, has, has-erase, all_rows, erase_all, map_values, is_empty, is_space, trim, size,
  every_char, is_digit, is_letter, is_id_char, is_slug,
}
use molenkopf.Runtime.{
  ProviderConfig, ProviderKind, api, on_host, cli, RoutingMode, manual, distribute, RuntimeState,
}

-- `provider.enabled !== false`
abbrev pub is_on : ProviderConfig → Bool
is_on p = or_else p.enabled true

abbrev pub has_id : String → ProviderConfig → Bool
has_id id p = p.id == id

abbrev pub first_enabled_provider : List ProviderConfig → Option ProviderConfig
first_enabled_provider ps = find is_on ps

abbrev pub first_provider : List ProviderConfig → Option ProviderConfig
first_provider [] = none
first_provider (p ∷ ps) = some p

-- The enabled provider with this id, else the first enabled one, else the first one.
abbrev pub selected : List ProviderConfig → String → Option ProviderConfig
selected ps id =
    or_option (find (λ p. has_id id p && is_on p) ps)
      (or_option (first_enabled_provider ps) (first_provider ps))

-- `activeProvider`; `none` where no provider is configured.
unfoldable pub active_provider : RuntimeState → Option ProviderConfig
active_provider s = selected s.providers s.active_provider_id

abbrev pub id_or_default : Option ProviderConfig → String
id_or_default none = "default"
id_or_default (some p) = p.id

-- `selectedProviderId`, which `createRuntimeState` starts with.
unfoldable pub selected_provider_id : List ProviderConfig → String → String
selected_provider_id ps requested = id_or_default (selected ps requested)

-- `repairActiveProvider`: whether the selection changed.
unfoldable pub repair_active_provider : RuntimeState → ℕ → RuntimeState × Bool
unfolding active_provider
repair_active_provider s now =
    let id = id_or_default (active_provider s) in
    if s.active_provider_id == id
    then (s, false)
    else (record s { active_provider_id = id; provider_selected_at = now }, true)

abbrev is_cli : ProviderKind → Bool
is_cli cli = true
is_cli _ = false

abbrev is_set : Option String → Bool
is_set none = false
is_set (some s) = not (is_empty s)

unfoldable pub distribution_eligible : ProviderConfig → Bool
distribution_eligible p =
    if p.id == "default" || not (is_on p) || not (or_else p.allow_distribution true)
    then false
    else not (is_cli p.kind) || or_else p.allow_distribution false || is_set p.runtime_auth_dir

unfoldable pub provider_weight : RuntimeState → String → ℕ
provider_weight s id = or_else (lookup id s.provider_weights) 1

abbrev pub enabled_provider : RuntimeState → String → Option ProviderConfig
enabled_provider s id = find (λ p. has_id id p && is_on p) s.providers

-- `ProviderRoutingSnapshot`
pub record ProviderRoutingSnapshot : Type 0 where
  pub providers : List ProviderConfig
  pub provider_weights : Dict ℕ
  pub active_provider_id : String
  pub provider_selected_at : ℕ
  pub routing_mode : RoutingMode

unfoldable pub snapshot_provider_routing : RuntimeState → ProviderRoutingSnapshot
snapshot_provider_routing s = record {
  providers = s.providers;
  provider_weights = s.provider_weights;
  active_provider_id = s.active_provider_id;
  provider_selected_at = s.provider_selected_at;
  routing_mode = s.routing_mode;
}

unfoldable pub restore_provider_routing : RuntimeState → ProviderRoutingSnapshot → RuntimeState
restore_provider_routing s snapshot = record s {
  providers = snapshot.providers;
  provider_weights = snapshot.provider_weights;
  active_provider_id = snapshot.active_provider_id;
  provider_selected_at = snapshot.provider_selected_at;
  routing_mode = snapshot.routing_mode;
}
