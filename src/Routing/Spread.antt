-- ===== src/Routing/Spread.antt =====
-- When the distribution finds a provider.
use molenkopf.Base.{any-of_listed, eq_refl}
use molenkopf.Base.{
  String, ◌≡◌, refl, inl, inr, Bool, true, ◌&&◌, List, [], ◌∷◌, map, arith, ◌==◌, ltb, Bool-cases,
  Option-cases, is_some, filter, find, any,
}
use molenkopf.Client.{ClientIdentity}
use molenkopf.Runtime.{ProviderConfig, RuntimeState}
use molenkopf.Routing.Access.{provider_allowed_for_client}
use molenkopf.Routing.Distribution.{is_enabled_share, choose_by_distribution}
use molenkopf.Routing.Distribution.Share.{
  choose_by_distribution-IsChosen, choose_by_distribution-is_some,
}
use molenkopf.Routing.Providers.{has_id, distribution_eligible, provider_weight}
use molenkopf.Routing.{eligible, shares_of, share_of, distributed}

any-shares :
    (s : RuntimeState) (id : String) (ps : List ProviderConfig)
    → any (λ b. b.id == id) (filter is_enabled_share (map (share_of s) ps)) ≡ true
    → is_some (find (has_id id) ps) ≡ true
any-shares s id [] h = cc
any-shares s id (p ∷ ps) h = elim (Bool-cases (has_id id p)) [
  | inl e ↦ ground arith
  | inr e ↦ ground (arith, any-shares s id ps, Bool-cases (ltb 0 (provider_weight s p.id)))
]

-- The provider takes part in the distribution to the client, with a positive weight.
abbrev pub takes_part : RuntimeState → ClientIdentity → ProviderConfig → Bool
takes_part s client p =
    distribution_eligible p
    && provider_allowed_for_client client p.id
    && ltb 0 (provider_weight s p.id)

any-takes_part :
    (s : RuntimeState) (client : ClientIdentity) (ps : List ProviderConfig)
    → any is_enabled_share (
        map
          (share_of s)
          (filter (λ p. distribution_eligible p && provider_allowed_for_client client p.id) ps))
      ≡ any (takes_part s client) ps
any-takes_part s client [] = refl
any-takes_part s client (p ∷ ps) =
    elim (Bool-cases (distribution_eligible p && provider_allowed_for_client client p.id)) [
      | inl e ↦ ground (arith, any-takes_part s client ps)
      | inr e ↦ ground (arith, any-takes_part s client ps)
    ]

-- A request is distributed exactly when some provider is eligible, permitted to the client, and of
-- positive weight.
pub distributed-is_some :
    (s : RuntimeState) (client : ClientIdentity)
    → is_some (distributed s client) ≡ any (takes_part s client) s.providers
unfolding distributed
distributed-is_some s client = elim (Option-cases (choose_by_distribution (shares_of s client))) [
  | inl n ↦
      rw (n, distributed)
        (ground (
          arith,
          any-takes_part s client s.providers,
          choose_by_distribution-is_some (shares_of s client),
        ))
  | inr (id, n) ↦
      let (chosen, same, _, _, is_chosen) =
        choose_by_distribution-IsChosen (shares_of s client) id n in
      let named =
        any-of_listed (λ b. b.id == chosen.id) (filter is_enabled_share (shares_of s client))
          {x = chosen} is_chosen.listed (eq_refl chosen.id) in
      let found = any-shares s chosen.id (eligible s client) named in
      ground (
        arith,
        any-takes_part s client s.providers,
        choose_by_distribution-is_some (shares_of s client),
      )
]
