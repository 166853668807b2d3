-- ===== src/Budget/Tiers.antt =====
-- The scopes that a request is charged to, each with its budget and what it has used.
use molenkopf.Base.{
  ◌>>=◌, map, String, is_empty, or_else, lookup, Bool-cases, ℕ, ◌≡◌, refl, ap, inl, inr, Option,
  none, some, List, [], ◌∷◌, ◌++◌, if◌then◌else◌,
}
use molenkopf.Identity.{IdentityData, Budget, BudgetPeriod, total}
use molenkopf.Usage.{
  set_text, key_tokens_used, key_cost_used, user_tokens_used, user_cost_used, team_tokens_used,
  team_cost_used, org_tokens_used, org_cost_used,
}
use molenkopf.Client.{ClientIdentity}
use molenkopf.Runtime.{RuntimeState}
use molenkopf.Budget.{
  period_of, TierKind, key, user, team, org, key_tier, user_tier, team_tier, org_tier, Tier,
  tiers_of,
}

-- A text that is there and not empty, as a list.
abbrev named_ids : Option String → List String
named_ids none = []
named_ids (some id) = if is_empty id then [] else id ∷ []

-- The scopes that a request is charged to, in the order in which they are looked at: the key, the
-- user, each team, and the organization.
abbrev pub scopes_of : ClientIdentity → List (TierKind × String)
scopes_of client =
    map (λ id. (key, id)) (named_ids client.key_id)
    ++ (map (λ id. (user, id)) (named_ids client.user_id)
        ++ (map (λ id. (team, id)) (or_else client.team_ids []) ++ (org, "org") ∷ []))

-- The budget of a scope's own row.
abbrev budget_at : IdentityData → TierKind → String → Option Budget
budget_at d key id = do k ← lookup id d.keys; k.budget
budget_at d user id = do u ← lookup id d.users; u.budget
budget_at d team id = do t ← lookup id d.teams; t.budget
budget_at d org id = d.org_budget

abbrev tokens_at : RuntimeState → TierKind → String → BudgetPeriod → ℕ → ℕ
tokens_at s key id period now = key_tokens_used s id period now
tokens_at s user id period now = user_tokens_used s id period now
tokens_at s team id period now = team_tokens_used s id period now
tokens_at s org id period now = org_tokens_used s period now

abbrev cost_at : RuntimeState → TierKind → String → BudgetPeriod → ℕ → ℕ
cost_at s key id period now = key_cost_used s id period now
cost_at s user id period now = user_cost_used s id period now
cost_at s team id period now = team_cost_used s id period now
cost_at s org id period now = org_cost_used s period now

abbrev period_at : Option Budget → BudgetPeriod
period_at none = total
period_at (some b) = b.period

-- A scope with its budget and what it has used in the budget's period, all time where it has none.
abbrev pub charged : RuntimeState → IdentityData → ℕ → TierKind × String → Tier
charged s d now (kind, id) =
    let budget = budget_at d kind id in
    let period = period_at budget in
    record {
      tier = kind;
      scope_id = id;
      budget = budget;
      tokens = tokens_at s kind id period now;
      cost = cost_at s kind id period now;
    }

period_of-period_at : (budget : Option Budget) → period_of budget ≡ period_at budget
period_of-period_at none = refl
period_of-period_at (some b) = refl

team-charged :
    (s : RuntimeState) (d : IdentityData) (now : ℕ) (id : String)
    → team_tier s d now id ≡ charged s d now (team, id)
team-charged s d now id = cc (period_of-period_at (budget_at d team id))

org-charged :
    (s : RuntimeState) (d : IdentityData) (now : ℕ)
    → org_tier s d now ≡ charged s d now (org, "org")
org-charged s d now = cc (period_of-period_at d.org_budget)

teams-charged :
    (s : RuntimeState) (d : IdentityData) (now : ℕ) (ids : List String)
    → map (team_tier s d now) ids ++ org_tier s d now ∷ []
      ≡ map (charged s d now) (map (λ id. (team, id)) ids ++ (org, "org") ∷ [])
teams-charged s d now [] = ap (λ (t : Tier). t ∷ []) (org-charged s d now)
teams-charged s d now (id ∷ ids) = cc (team-charged s d now id, teams-charged s d now ids)

user-charged :
    (s : RuntimeState) (d : IdentityData) (now : ℕ) (id : Option String) (ts : List Tier)
    (scopes : List (TierKind × String))
    → ts ≡ map (charged s d now) scopes
    → user_tier s d now (set_text id) ++ ts
      ≡ map (charged s d now) (map (λ id. (user, id)) (named_ids id) ++ scopes)
user-charged s d now none ts scopes h = h
user-charged s d now (some id) ts scopes h = elim (Bool-cases (is_empty id)) [
  | inl e ↦ rw e h
  | inr e ↦ rw e (cc (h, period_of-period_at (budget_at d user id)))
]

key-charged :
    (s : RuntimeState) (d : IdentityData) (now : ℕ) (id : Option String) (ts : List Tier)
    (scopes : List (TierKind × String))
    → ts ≡ map (charged s d now) scopes
    → key_tier s d now (set_text id) ++ ts
      ≡ map (charged s d now) (map (λ id. (key, id)) (named_ids id) ++ scopes)
key-charged s d now none ts scopes h = h
key-charged s d now (some id) ts scopes h = elim (Bool-cases (is_empty id)) [
  | inl e ↦ rw e h
  | inr e ↦ rw e (cc (h, period_of-period_at (budget_at d key id)))
]

pub tiers_of-charged :
    (s : RuntimeState) (d : IdentityData) (client : ClientIdentity) (now : ℕ)
    → tiers_of s d client now ≡ map (charged s d now) (scopes_of client)
unfolding tiers_of
tiers_of-charged s d client now =
    key-charged s d now client.key_id _ _
      (user-charged s d now client.user_id _ _ (teams-charged s d now (or_else client.team_ids [])))
