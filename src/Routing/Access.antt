-- ===== src/Routing/Access.antt =====
-- The providers that a client may use, packages/proxy/src/http/provider-access.ts.
pub mod Laws
use molenkopf.Base.{
  ℕ, zero, suc, ◌+◌, ◌-◌, ◌*◌, ◌/◌, ◌≤◌, ◌<◌, String, ◌≡◌, refl, sym, ap, ◌∙◌, ◌≢◌, ◌↔◌, ◌⊎◌, inl,
  inr, Bool, true, false, ◌&&◌, ◌||◌, not, Option, none, some, List, [], ◌∷◌, ◌++◌, map, arith,
  ◌==◌, eq_iff, eq_refl, ltb, leb, nat_eq, if◌then◌else◌, Bool-cases, Option-cases, or_else,
  or_option, is_some, ◌>>=◌, Result, ok, fail, length, take, drop, filter, find, any, all, All,
  length-append, includes, includes-filter, includes-append, other_than, unique, includes-unique,
  IsUnique, filter-IsUnique, unique-IsUnique, all_mono, all-filter, all-of_includes,
  all-filter_self, all-const, filter-all, Dict, lookup, insert, erase, values, lookup-insert,
  lookup-erase, has, has-erase, all_rows, erase_all, map_values, is_empty, is_space, trim, size,
  every_char, is_digit, is_letter, is_id_char, is_slug,
}
use molenkopf.Base.{Bool}
use molenkopf.Identity.{Allowlist, every, only, User, Team, IdentityData, is_admin}
use molenkopf.Client.{ClientIdentity}

-- The union of the teams' lists, or all where a team has all; `out` is the set so far.
allowlist_from : IdentityData → List String → List String → Allowlist
allowlist_from d out [] = only out
allowlist_from d out (t ∷ ts) = elim (lookup t d.teams) [
  | none ↦ allowlist_from d out ts
  | some team ↦ elim team.allowed_providers [
    | every ↦ every
    | only ids ↦ allowlist_from d (out ++ ids) ts
  ]
]

abbrev distinct : Allowlist → Allowlist
distinct every = every
distinct (only ids) = only (unique ids)

-- `allowlistForTeams`
unfoldable pub allowlist_for_teams : IdentityData → List String → Allowlist
unfolding allowlist_from
allowlist_for_teams d team_ids = distinct (allowlist_from d [] team_ids)

-- `cleanAllowlist` of a list that is there
unfoldable pub clean_allowlist : List String → List String
unfolding trim
clean_allowlist value = unique (filter (λ s. not (is_empty s)) (map trim value))

abbrev restricted : Allowlist → List String → Allowlist
restricted every ids = only ids
restricted (only allowed) ids = only (filter (includes allowed) ids)

abbrev pub is_owner_admin : Option User → Bool
is_owner_admin none = false
is_owner_admin (some u) = is_admin u.role

unfoldable pub effective_provider_allowlist :
    IdentityData → Option User → List String → Option (List String) → Allowlist
unfolding allowlist_for_teams clean_allowlist
effective_provider_allowlist d owner team_ids key_scopes =
    let teams : Allowlist =
      (if is_owner_admin owner then every else allowlist_for_teams d team_ids) in
    elim key_scopes [ none ↦ teams | some scopes ↦ restricted teams (clean_allowlist scopes) ]

abbrev pub permits : Allowlist → String → Bool
permits every id = true
permits (only ids) id = includes ids id

unfoldable pub provider_allowed_for_client : ClientIdentity → String → Bool
provider_allowed_for_client client provider_id = elim client.allowed_provider_ids [
  | none ↦ true
  | some allowed ↦ permits allowed provider_id
]
