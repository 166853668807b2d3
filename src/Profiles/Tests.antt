-- ===== src/Profiles/Tests.antt =====
-- The theorem on profiles at a failover over a profile that is used up.
use molenkopf.Base.{◌≡◌, refl, none, some, [], ◌∷◌, ok}
use molenkopf.Profiles.{UpstreamProfile, RoutingConfig, failover, choose_profile}
use molenkopf.Profiles.Laws.{IsUsable, choose_profile-IsUsable}

abbrev used_up : UpstreamProfile
used_up = record {
  name = "first";
  target = "https://a.invalid";
  healthy = none;
  env_key = none;
  budget_tokens = some 10;
  used_tokens = some 10;
}

abbrev second : UpstreamProfile
second = record used_up { name = "second"; used_tokens = some 3 }

abbrev failover_config : RoutingConfig
failover_config = record { mode = failover; profile = none; profiles = used_up ∷ second ∷ [] }

second-chosen : choose_profile failover_config ≡ ok second
unfolding choose_profile
second-chosen = refl

choose_profile_example : IsUsable failover_config second
choose_profile_example = choose_profile-IsUsable failover_config second second-chosen
