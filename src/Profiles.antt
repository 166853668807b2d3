-- ===== src/Profiles.antt =====
-- Upstream profiles, packages/core/src/profiles/profile-router.ts; an error that the source throws is
-- a constructor. The environment is an argument.
pub mod Laws
pub mod Tests
use molenkopf.Base.{
  ℕ, zero, suc, ◌+◌, ◌-◌, ◌*◌, ◌/◌, ◌≤◌, ◌<◌, String, ◌≡◌, refl, sym, ap, ◌∙◌, ◌≢◌, ◌↔◌, ◌⊎◌, inl,
  inr, Bool, true, false, ◌&&◌, ◌||◌, not, Option, none, some, List, [], ◌∷◌, ◌++◌, map, arith,
  ◌==◌, eq_iff, eq_refl, ltb, leb, nat_eq, if◌then◌else◌, Bool-cases, Option-cases, or_else,
  or_option, is_some, ◌>>=◌, Result, ok, fail, length, take, drop, filter, find, any, all, All,
  length-append, includes, includes-filter, includes-append, other_than, unique, includes-unique,
  IsUnique, filter-IsUnique, unique-IsUnique, all_mono, all-filter, all-of_includes,
  all-filter_self, all-const, filter-all, Dict, lookup, insert, erase, values, lookup-insert,
  lookup-erase, has, has-erase, all_rows, erase_all, map_values, is_empty, is_space, trim, size,
  every_char, is_digit, is_letter, is_id_char, is_slug,
}

pub record UpstreamProfile : Type 0 where
  pub name : String
  pub target : String
  pub healthy : Option Bool
  pub env_key : Option String
  pub budget_tokens : Option ℕ
  pub used_tokens : Option ℕ

pub data ProfileMode : Type 0 where
  fixed by_hand failover : ProfileMode

pub record RoutingConfig : Type 0 where
  pub mode : ProfileMode
  pub profile : Option String
  pub profiles : List UpstreamProfile

pub data ProfileError : Type 0 where
  no_healthy_profile profile_required : ProfileError
  unknown_profile budget_exhausted : String → ProfileError

abbrev within : Option ℕ → ℕ → Bool
within none used = true
within (some budget) used = ltb used budget

unfoldable pub has_budget : UpstreamProfile → Bool
has_budget p = within p.budget_tokens (or_else p.used_tokens 0)

abbrev pub is_healthy : UpstreamProfile → Bool
is_healthy p = or_else p.healthy true

abbrev pub is_failover : ProfileMode → Bool
is_failover failover = true
is_failover _ = false

abbrev pub usable : UpstreamProfile → Bool
usable p = is_healthy p && has_budget p

abbrev or_error : ProfileError → Option UpstreamProfile → Result ProfileError UpstreamProfile
or_error e none = fail e
or_error e (some p) = ok p

abbrev with_budget : Option UpstreamProfile → String → Result ProfileError UpstreamProfile
with_budget none name = fail (unknown_profile name)
with_budget (some p) name = if has_budget p then ok p else fail (budget_exhausted p.name)

abbrev named_profile : List UpstreamProfile → Option String → Result ProfileError UpstreamProfile
named_profile ps none = fail profile_required
named_profile ps (some name) =
    if is_empty name
    then fail profile_required
    else with_budget (find (λ p. p.name == name) ps) name

unfoldable pub choose_profile : RoutingConfig → Result ProfileError UpstreamProfile
unfolding has_budget
choose_profile c =
    if is_failover c.mode
    then or_error no_healthy_profile (find usable c.profiles)
    else named_profile c.profiles c.profile

unfoldable pub read_credential : (String → Option String) → UpstreamProfile → Option String
read_credential env p = elim p.env_key [
  | none ↦ none
  | some key ↦ if is_empty key then none else env key
]

pub record HealthSummary : Type 0 where
  pub name : String
  pub target : String
  pub healthy : Bool
  pub budget_remaining : Option ℕ

abbrev remaining : Option ℕ → ℕ → Option ℕ
remaining none used = none
remaining (some budget) used = some (budget - used)

unfoldable pub health_summary : List UpstreamProfile → List HealthSummary
health_summary ps =
    map
      (λ p. record {
        name = p.name;
        target = p.target;
        healthy = is_healthy p;
        budget_remaining = remaining p.budget_tokens (or_else p.used_tokens 0);
      })
      ps
