-- ===== src/Routing/Access/Laws.antt =====
-- Which providers the effective list has.
use molenkopf.Base.{
  String, ◌≡◌, refl, ◌∙◌, ◌⊎◌, inl, inr, Bool, true, false, ◌&&◌, ◌||◌, Option, none, some, List,
  [], ◌∷◌, ◌++◌, arith, if◌then◌else◌, Option-cases, any, includes, includes-filter,
  includes-append, includes-unique, lookup,
}
use molenkopf.Identity.{Allowlist, every, only, User, IdentityData}
use molenkopf.Routing.Access.{
  allowlist_from, allowlist_for_teams, distinct, clean_allowlist, restricted, is_owner_admin,
  effective_provider_allowlist, permits,
}

-- The list of the team with this id permits the provider; a team that is not there permits none.
abbrev pub team_permits : IdentityData → String → String → Bool
team_permits d p t = elim (lookup t d.teams) [
  | none ↦ false
  | some team ↦ permits team.allowed_providers p
]

-- The scopes of a key permit the provider; a key without scopes permits all.
abbrev pub scopes_permit : Option (List String) → String → Bool
scopes_permit none p = true
scopes_permit (some scopes) p = includes (clean_allowlist scopes) p

Allowlist-cases : (a : Allowlist) → (a ≡ every) ⊎ ((ids : List String) × (a ≡ only ids))
Allowlist-cases every = inl refl
Allowlist-cases (only ids) = inr (ids, refl)

allowlist_from-permits :
    (d : IdentityData) (p : String) (out ts : List String)
    → permits (allowlist_from d out ts) p ≡ (includes out p || any (team_permits d p) ts)
unfolding allowlist_from
allowlist_from-permits d p out [] = ground arith
allowlist_from-permits d p out (t ∷ ts) = elim (Option-cases (lookup t d.teams)) [
  | inl e ↦ ground (arith, allowlist_from-permits d p out ts)
  | inr (team, e) ↦ elim (Allowlist-cases team.allowed_providers) [
    | inl f ↦ ground arith
    | inr (ids, f) ↦
        ground (arith, allowlist_from-permits d p (out ++ ids) ts, includes-append out ids p)
  ]
]

distinct-permits : (a : Allowlist) (p : String) → permits (distinct a) p ≡ permits a p
distinct-permits every p = refl
distinct-permits (only ids) p = includes-unique ids p

-- The teams' list permits what one of the teams permits.
allowlist_for_teams-permits :
    (d : IdentityData) (p : String) (ts : List String)
    → permits (allowlist_for_teams d ts) p ≡ any (team_permits d p) ts
unfolding allowlist_for_teams
allowlist_for_teams-permits d p ts =
    distinct-permits (allowlist_from d [] ts) p ∙ allowlist_from-permits d p [] ts

restricted-permits :
    (a : Allowlist) (ids : List String) (p : String)
    → permits (restricted a ids) p ≡ (permits a p && includes ids p)
restricted-permits every ids p = refl
restricted-permits (only allowed) ids p = ground (arith, includes-filter (includes allowed) ids p)

-- The effective list permits a provider exactly when the owner is an administrator or one of the
-- teams permits it, and the key's scopes, where it has them, name it.
pub effective_provider_allowlist-permits :
    (d : IdentityData) (owner : Option User) (team_ids : List String)
    (scopes : Option (List String)) (p : String)
    → permits (effective_provider_allowlist d owner team_ids scopes) p
      ≡ ((is_owner_admin owner || any (team_permits d p) team_ids) && scopes_permit scopes p)
unfolding effective_provider_allowlist
effective_provider_allowlist-permits d owner team_ids none p =
    ground (arith, allowlist_for_teams-permits d p team_ids)
effective_provider_allowlist-permits d owner team_ids (some scopes) p =
    restricted-permits (if is_owner_admin owner then every else allowlist_for_teams d team_ids)
      (clean_allowlist scopes) p
    ∙ ground (arith, allowlist_for_teams-permits d p team_ids)
