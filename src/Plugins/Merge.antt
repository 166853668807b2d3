-- ===== src/Plugins/Merge.antt =====
-- What several teams together may do.
use molenkopf.Base.{
  ℕ, String, ◌≡◌, ◌∙◌, inl, inr, Bool, ◌&&◌, some, List, [], ◌∷◌, arith, leb, Bool-cases, all,
  includes, includes-filter,
}
use molenkopf.Plugins.{
  PluginRisk, risk_index, PluginPolicyStore, PluginDescriptor, ResolvedPluginPolicy,
  resolve_effective_plugin_policy, lower_risk, merge_two, merge_policies, policies_of_teams,
  resolve_for,
}

merge_policies-enabled :
    (p : ResolvedPluginPolicy) (rest : List ResolvedPluginPolicy)
    → (merge_policies p rest).enabled ≡ (p.enabled && all (λ q. q.enabled) rest)
unfolding merge_policies
merge_policies-enabled p [] = ground arith
merge_policies-enabled p (q ∷ rest) = ground (arith, merge_policies-enabled (merge_two p q) rest)

merge_policies-capabilities :
    (c : String) (p : ResolvedPluginPolicy) (rest : List ResolvedPluginPolicy)
    → includes (merge_policies p rest).capabilities c
      ≡ (includes p.capabilities c && all (λ q. includes q.capabilities c) rest)
unfolding merge_policies
merge_policies-capabilities c p [] = ground arith
merge_policies-capabilities c p (q ∷ rest) = ground (
  arith,
  merge_policies-capabilities c (merge_two p q) rest,
  includes-filter (includes q.capabilities) p.capabilities c,
)

merge_policies-actions :
    (a : String) (p : ResolvedPluginPolicy) (rest : List ResolvedPluginPolicy)
    → includes (merge_policies p rest).actions a
      ≡ (includes p.actions a && all (λ q. includes q.actions a) rest)
unfolding merge_policies
merge_policies-actions a p [] = ground arith
merge_policies-actions a p (q ∷ rest) = ground (
  arith,
  merge_policies-actions a (merge_two p q) rest,
  includes-filter (includes q.actions) p.actions a,
)

lower_risk-index :
    (r : ℕ) (a b : PluginRisk)
    → leb r (risk_index (lower_risk a b)) ≡ (leb r (risk_index a) && leb r (risk_index b))
lower_risk-index r a b = elim (Bool-cases (leb (risk_index a) (risk_index b))) [
  | inl e ↦ rw e (ground arith)
  | inr e ↦ rw e (ground arith)
]

merge_policies-risk :
    (r : ℕ) (p : ResolvedPluginPolicy) (rest : List ResolvedPluginPolicy)
    → leb r (risk_index (merge_policies p rest).max_risk)
      ≡ (leb r (risk_index p.max_risk) && all (λ q. leb r (risk_index q.max_risk)) rest)
unfolding merge_policies
merge_policies-risk r p [] = ground arith
merge_policies-risk r p (q ∷ rest) =
    merge_policies-risk r (merge_two p q) rest
    ∙ rw (lower_risk-index r p.max_risk q.max_risk) (ground arith)

-- The policies of some teams, each for itself.
abbrev pub each_team :
    PluginPolicyStore → PluginDescriptor → List String → (ResolvedPluginPolicy → Bool) → Bool
each_team store d team_ids test = all test (policies_of_teams store d team_ids)

-- Several teams together may do what each of them may: the plugin is enabled for them, and has a
-- capability, an action or a risk, exactly where that is so for each team.
pub resolve_for-all :
    (store : PluginPolicyStore) (d : PluginDescriptor) (t : String) (ts : List String)
    (item : String) (risk : ℕ)
    → ((resolve_for store d (t ∷ ts)).enabled ≡ each_team store d (t ∷ ts) (λ p. p.enabled))
      × (includes (resolve_for store d (t ∷ ts)).capabilities item
          ≡ each_team store d (t ∷ ts) (λ p. includes p.capabilities item))
      × (includes (resolve_for store d (t ∷ ts)).actions item
          ≡ each_team store d (t ∷ ts) (λ p. includes p.actions item))
      × (leb risk (risk_index (resolve_for store d (t ∷ ts)).max_risk)
          ≡ each_team store d (t ∷ ts) (λ p. leb risk (risk_index p.max_risk)))
resolve_for-all store d t ts item risk =
    let first = resolve_effective_plugin_policy d store (some t) in
    let rest = policies_of_teams store d ts in
    (
      merge_policies-enabled first rest,
      merge_policies-capabilities item first rest,
      merge_policies-actions item first rest,
      merge_policies-risk risk first rest,
    )
