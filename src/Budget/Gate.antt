-- ===== src/Budget/Gate.antt =====
-- Which requests the budgets let pass.
use molenkopf.Base.{
  map, nat_eq, ltb, ℕ, ◌≡◌, refl, sym, ap, inl, inr, Bool, true, false, ◌&&◌, not, Option, none,
  some, List, [], ◌∷◌, ◌++◌, arith, if◌then◌else◌, Option-cases, is_some, find, any,
}
use molenkopf.Base.{append-nil, append_assoc}
use molenkopf.Identity.{IdentityData, Budget, warn, block}
use molenkopf.Client.{ClientIdentity}
use molenkopf.Runtime.{RuntimeState}
use molenkopf.Budget.{
  reaches, Tier, Metric, Warning, BudgetCheck, allowed, exceeded, exceeded_metric, only_warns,
  check_tiers, check_budgets,
}
use molenkopf.Budget.Tiers.{scopes_of, charged, tiers_of-charged}

-- A limit other than zero is there, and no less than it is used.
abbrev used_up : Option ℕ → ℕ → Bool
used_up none used = false
used_up (some limit) used = not (nat_eq limit 0) && not (ltb used limit)

-- Which of the two limits is used up, the one on tokens first.
abbrev metric_of : Tier → Option Metric
metric_of t = elim t.budget [
  | none ↦ none
  | some b ↦
      if used_up b.token_limit t.tokens
      then some Metric.tokens
      else if used_up b.cost_limit_eur t.cost
      then some Metric.cost
      else none
]

abbrev only_warned : Option Budget → Bool
only_warned none = false
only_warned (some b) = elim b.on_exceed [ warn ↦ true | block ↦ false ]

-- A tier whose budget is used up and blocks.
abbrev pub blocks : Tier → Bool
blocks t = is_some (metric_of t) && not (only_warned t.budget)

-- The warning of a tier whose budget is used up and only warns.
abbrev warning_of : Tier → Option Metric → List Warning
warning_of t none = []
warning_of t (some m) =
    if only_warned t.budget
    then (record { tier = t.tier; scope_id = t.scope_id; metric = m }) ∷ []
    else []

abbrev pub warnings_of : List Tier → List Warning
warnings_of [] = []
warnings_of (t ∷ ts) = warning_of t (metric_of t) ++ warnings_of ts

abbrev refusal : Option Metric → Tier → BudgetCheck
refusal none t = allowed []
refusal (some m) t = exceeded t.tier t.scope_id m

-- What the gate answers, said without a loop: the refusal of the first tier that blocks, or else
-- every warning in order.
abbrev pub verdict : List Tier → BudgetCheck
verdict ts = elim (find blocks ts) [
  | none ↦ allowed (warnings_of ts)
  | some t ↦ refusal (metric_of t) t
]

-- The verdict with warnings in front.
abbrev verdict_after : List Warning → List Tier → BudgetCheck
verdict_after ws ts = elim (find blocks ts) [
  | none ↦ allowed (ws ++ warnings_of ts)
  | some t ↦ refusal (metric_of t) t
]

reaches-used_up : (limit : Option ℕ) (used : ℕ) → reaches limit used ≡ used_up limit used
reaches-used_up none used = refl
reaches-used_up (some limit) used = ground arith

exceeded_metric-metric_of : (t : Tier) → exceeded_metric t ≡ metric_of t
unfolding exceeded_metric
exceeded_metric-metric_of t = elim (Option-cases t.budget) [
  | inl e ↦ rw e refl
  | inr (b, e) ↦
      rw (e, reaches-used_up b.token_limit t.tokens, reaches-used_up b.cost_limit_eur t.cost) refl
]

only_warns-only_warned : (budget : Option Budget) → only_warns budget ≡ only_warned budget
only_warns-only_warned none = refl
only_warns-only_warned (some b) = elim b.on_exceed [ warn ↦ refl | block ↦ refl ]

check_tiers-verdict : (ws : List Warning) (ts : List Tier) → check_tiers ws ts ≡ verdict_after ws ts
unfolding check_tiers
check_tiers-verdict ws [] = ap allowed (sym (append-nil ws))
check_tiers-verdict ws (t ∷ ts) = (elim (Option-cases (metric_of t)) [
  | inl e ↦ ground (arith, exceeded_metric-metric_of t, check_tiers-verdict ws ts)
  | inr (m, e) ↦ ground (
    arith,
    exceeded_metric-metric_of t,
    only_warns-only_warned t.budget,
    check_tiers-verdict (ws ++ (record { tier = t.tier; scope_id = t.scope_id; metric = m }) ∷ [])
        ts,
    append_assoc ws ((record { tier = t.tier; scope_id = t.scope_id; metric = m }) ∷ [])
        (warnings_of ts),
  )
])

-- The scopes of a request are its key, its user, its teams and the organization, in this order, each
-- with its own budget and what it has used in the budget's period. The budget check is the refusal of
-- the first scope whose budget is used up and blocks, or else the warnings of all scopes whose budgets
-- are used up, in order; a budget is used up where a limit that is not zero is reached.
pub check_budgets-verdict :
    (s : RuntimeState) (d : IdentityData) (client : ClientIdentity) (now : ℕ)
    → s.identity ≡ some d
    → check_budgets s client now ≡ verdict (map (charged s d now) (scopes_of client))
unfolding check_budgets
check_budgets-verdict s d client now e =
    rw (e, check_budgets, tiers_of-charged s d client now)
      (check_tiers-verdict [] (map (charged s d now) (scopes_of client)))

find-none : (ts : List Tier) → find blocks ts ≡ none → any blocks ts ≡ false
find-none [] e = refl
find-none (t ∷ ts) e = ground (arith, find-none ts)

find-some : (ts : List Tier) {t : Tier} → find blocks ts ≡ some t → any blocks ts ≡ true
find-some [] e = cc
find-some (u ∷ ts) {t} e = ground (arith, find-some ts {t = t})

find-blocks : (ts : List Tier) {t : Tier} → find blocks ts ≡ some t → blocks t ≡ true
find-blocks [] e = cc
find-blocks (u ∷ ts) {t} e = ground (arith, find-blocks ts {t = t})

abbrev pub is_allowed : BudgetCheck → Bool
is_allowed (allowed ws) = true
is_allowed (exceeded t id m) = false

refusal-not_allowed : (t : Tier) → blocks t ≡ true → is_allowed (refusal (metric_of t) t) ≡ false
refusal-not_allowed t h = ground (arith, Option-cases (metric_of t))

-- A request passes the gate exactly when no scope of it has a budget that is used up and blocks.
pub check_budgets-is_allowed :
    (s : RuntimeState) (d : IdentityData) (client : ClientIdentity) (now : ℕ)
    → s.identity ≡ some d
    → is_allowed (check_budgets s client now)
      ≡ not (any blocks (map (charged s d now) (scopes_of client)))
check_budgets-is_allowed s d client now e =
    rw (check_budgets-verdict s d client now e)
      (elim (Option-cases (find blocks (map (charged s d now) (scopes_of client)))) [
        | inl n ↦ ground (arith, find-none (map (charged s d now) (scopes_of client)))
        | inr (t, n) ↦ ground (
          arith,
          find-some (map (charged s d now) (scopes_of client)) {t = t},
          refusal-not_allowed t (find-blocks (map (charged s d now) (scopes_of client)) n),
        )
      ])
