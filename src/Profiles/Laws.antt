-- ===== src/Profiles/Laws.antt =====
-- Which profile is chosen, and what the summary says of it.
use mathlib.Core.Path.{subst}
use molenkopf.Base.{
  refl, Memᴰ, find-listed, ◌<◌, ◌≢◌, ℕ, or_else, String, ◌≡◌, ap, ◌∙◌, inl, inr, true, false,
  Option, none, some, List, arith, ◌==◌, eq_iff, Bool-cases, Option-cases, ok, find, is_empty,
}
use molenkopf.Routing.Providers.Laws.{find-holds}
use molenkopf.Profiles.{
  ProfileMode, failover, fixed, by_hand, UpstreamProfile, RoutingConfig, has_budget, is_healthy,
  is_failover, usable, choose_profile, named_profile, with_budget,
}

-- The profile is configured, has tokens left, is healthy in a failover, and is the named one else.
pub record IsUsable (c : RoutingConfig) (p : UpstreamProfile) : Type 0 where
  pub listed : Memᴰ p c.profiles
  pub budget_left : (budget : ℕ) → p.budget_tokens ≡ some budget → or_else p.used_tokens 0 < budget
  pub healthy : c.mode ≡ failover → p.healthy ≢ some false
  pub named : c.mode ≢ failover → c.profile ≡ some p.name

has_budget-left :
    (p : UpstreamProfile) (budget : ℕ)
    → has_budget p ≡ true
    → p.budget_tokens ≡ some budget
    → or_else p.used_tokens 0 < budget
unfolding has_budget
has_budget-left p budget h e = ground arith

is_healthy-not : (p : UpstreamProfile) → is_healthy p ≡ true → p.healthy ≢ some false
is_healthy-not p h e = ground arith

failover-mode : (m : ProfileMode) → m ≡ failover → is_failover m ≡ true
failover-mode m e = rw e refl

mode-failover : (m : ProfileMode) → is_failover m ≡ true → m ≡ failover
mode-failover failover h = refl
mode-failover fixed h = absurd (cc h)
mode-failover by_hand h = absurd (cc h)

named_profile-ok :
    (ps : List UpstreamProfile) (name : Option String) (p : UpstreamProfile)
    → named_profile ps name ≡ ok p
    → Memᴰ p ps × (has_budget p ≡ true) × (name ≡ some p.name)
named_profile-ok ps none p e = absurd (cc e)
named_profile-ok ps (some name) p e = elim (Bool-cases (is_empty name)) [
  | inl h ↦ absurd (cc (rw h at e))
  | inr h ↦ elim (Option-cases (find (λ q. q.name == name) ps)) [
    | inl n ↦ absurd (cc (rw (h, n) at e))
    | inr (q, n) ↦
        let found : with_budget (some q) name ≡ ok p = rw (h, n) at e in
        let same = find-holds (λ (q : UpstreamProfile). q.name == name) ps n in
        let listed = find-listed (λ (q : UpstreamProfile). q.name == name) ps {x = q} n in
        elim (Bool-cases (has_budget q)) [
          | inl b ↦
              let here : q ≡ p = ground arith in
              (
                subst (λ (r : UpstreamProfile). Memᴰ r ps) here listed,
                ground arith,
                ground (arith, eq_iff q.name name),
              )
          | inr b ↦ absurd (ground arith)
        ]
  ]
]

-- A profile that is chosen is one of the configured rows, has used less than its budget where it has
-- one, is not marked unhealthy in a failover, and has the name that the configuration gives otherwise.
pub choose_profile-IsUsable :
    (c : RoutingConfig) (p : UpstreamProfile) → choose_profile c ≡ ok p → IsUsable c p
unfolding choose_profile
choose_profile-IsUsable c p e = elim (Bool-cases (is_failover c.mode)) [
  | inl f ↦ elim (Option-cases (find usable c.profiles)) [
    | inl n ↦ absurd (ground arith)
    | inr (q, n) ↦
        let here : q ≡ p = ground arith in
        let good : usable p ≡ true = find-holds usable c.profiles {x = p} (n ∙ ap some here) in
        record {
          listed = find-listed usable c.profiles {x = p} (n ∙ ap some here);
          budget_left = λ budget. has_budget-left p budget (ground arith);
          healthy = λ _. is_healthy-not p (ground arith);
          named = λ h. absurd (h (mode-failover c.mode f));
        }
  ]
  | inr f ↦
      let (listed, left, named) = named_profile-ok c.profiles c.profile p (ground arith) in
      record {
        listed = listed;
        budget_left = λ budget. has_budget-left p budget left;
        healthy = λ h. absurd (ground (arith, failover-mode c.mode h));
        named = λ _. named;
      }
]
