-- ===== src/Config/Laws.antt =====
-- What a configuration that is accepted satisfies.
use molenkopf.Base.{
  ℕ, suc, String, ◌≡◌, refl, sym, ap, ◌∙◌, inl, inr, Bool, true, false, ◌&&◌, ◌||◌, not, Option,
  none, some, List, [], ◌∷◌, arith, ◌==◌, eq_iff, Bool-cases, Option-cases, or_else, is_some,
  Result, ok, fail, all, includes, IsUnique, Dict, lookup, values,
}
use molenkopf.Config.Values.{
  Json, ◌>>=◌, required, record_value, text_of, id_value, optional_id, unique_strings,
  non_empty_unique_ids, each_item, assert_unseen, at_index,
}
use molenkopf.Config.{
  ProfilePolicy, PluginPolicy, AgentPolicy, profile_by_id, policy_by_id, ensure, lists_default,
  path_of, known_plugins, known_policy, named, agent_provider, agent_with, enabled_value, is_true,
  models_of, default_of, plugins_of, normalize_profile, normalize_plugin_policy, normalize_agent,
}

-- The result, if there is one, passes the test.
abbrev pub holds {ℓ} : {E : Type 0} {A : Type ℓ} → (A → Bool) → Result E A → Bool
holds p (ok a) = p a
holds p (fail e) = true

pub record Holds {ℓ} {E : Type 0} {A : Type ℓ} (p : A → Bool) (r : Result E A) : Type 0 where
  pub held : holds p r ≡ true

pub Holds-bind {ℓ κ} :
    {E : Type 0} {A : Type ℓ} {B : Type κ} (p : B → Bool) (r : Result E A) (f : A → Result E B)
    → ((a : A) → r ≡ ok a → Holds p (f a))
    → Holds p (r >>= f)
Holds-bind p (ok a) f h = h a refl
Holds-bind p (fail e) f h = record { held = refl }

pub Holds-ensure {κ} :
    {E : Type 0} {B : Type κ} (p : B → Bool) (test : Bool) (error : E) (rest : Result E B)
    → (test ≡ true → Holds p rest)
    → Holds p (ensure test error rest)
Holds-ensure p true error rest h = h refl
Holds-ensure p false error rest h = record { held = refl }

pub Holds-ok {ℓ} :
    {E : Type 0} {A : Type ℓ} (p : A → Bool) (r : Result E A) (a : A)
    → Holds p r
    → r ≡ ok a
    → p a ≡ true
Holds-ok p r a h e = ap (holds p) (sym e) ∙ h.held

pub each_item-all :
    {A : Type 0} (p : A → Bool) (f : Json → String → Result String A)
    → ((item : Json) (path : String) → Holds p (f item path))
    → (path : String) (index : ℕ) (items : List Json) → Holds (all p) (each_item f path index items)
unfolding each_item
each_item-all p f each path index [] = record { held = refl }
each_item-all p f each path index (item ∷ items) =
    Holds-bind (all p) (f item (at_index path index)) _ (λ a e.
      Holds-bind (all p) (each_item f path (suc index) items) _ (λ others g. record {
        held = ground (
          arith,
          Holds-ok p (f item (at_index path index)) a (each item (at_index path index)) e,
          Holds-ok (all p) (each_item f path (suc index) items) others
              (each_item-all p f each path (suc index) items) g,
        );
      }))

pub is_fresh : List String → String → Bool
is_fresh seen value = not (includes seen value)

all-fresh_tail :
    (v : String) (seen values : List String)
    → all (is_fresh (v ∷ seen)) values ≡ true
    → (all (is_fresh seen) values ≡ true) × (includes values v ≡ false)
unfolding is_fresh
all-fresh_tail v seen [] h = (refl, refl)
all-fresh_tail v seen (w ∷ values) h =
    ground (arith, all-fresh_tail v seen values, eq_iff v w, eq_iff w v)

pub assert_unseen-IsUnique :
    (seen values : List String) (label : String) (u : Unit)
    → assert_unseen seen values label ≡ ok u
    → (all (is_fresh seen) values ≡ true) × IsUnique values
unfolding is_fresh
assert_unseen-IsUnique seen [] label u h = (refl, tt)
assert_unseen-IsUnique seen (v ∷ values) label u h = elim (Bool-cases (includes seen v)) [
  | inl e ↦ absurd (ground (arith))
  | inr e ↦
      let (fresh, once) = assert_unseen-IsUnique (v ∷ seen) values label u (ground (arith)) in
      let (rest, other) = all-fresh_tail v seen values fresh in (ground (arith), (other, once))
]

pub is_known_profile : List String → ProfilePolicy → Bool
is_known_profile provider_ids q =
    includes provider_ids q.provider_id && lists_default q.default_model q.allowed_models

pub normalize_profile-known :
    (provider_ids : List String) (item : Json) (path : String)
    → Holds (is_known_profile provider_ids) (normalize_profile provider_ids item path)
unfolding normalize_profile is_known_profile
normalize_profile-known provider_ids item path = record { held = ground (arith) }

known_plugins-all :
    (builtin ids : List String) (u : Unit {0})
    → known_plugins builtin ids ≡ ok u
    → all (includes builtin) ids ≡ true
known_plugins-all builtin [] u h = refl
known_plugins-all builtin (id ∷ ids) u h = elim (Bool-cases (includes builtin id)) [
  | inl e ↦ ground (arith, known_plugins-all builtin ids u (ground (arith)))
  | inr e ↦ absurd (ground (arith))
]

pub enables_known : List String → PluginPolicy → Bool
enables_known builtin q = all (includes builtin) (or_else q.enabled_plugin_ids [])

enables_known_intro :
    (builtin : List String) (q : PluginPolicy) (u : Unit {0})
    → known_plugins builtin (or_else q.enabled_plugin_ids []) ≡ ok u
    → enables_known builtin q ≡ true
unfolding enables_known
enables_known_intro builtin q u h = known_plugins-all builtin (or_else q.enabled_plugin_ids []) u h

known_policy-known :
    (builtin : List String) (id : String) (ids : Option (List String))
    → Holds (enables_known builtin) (known_policy builtin id ids)
known_policy-known builtin id ids =
    Holds-bind (enables_known builtin) (known_plugins builtin (or_else ids []))
      (λ _. ok (record { id = id; enabled_plugin_ids = ids }))
      (λ u e. record {
        held = enables_known_intro builtin (record { id = id; enabled_plugin_ids = ids }) u e;
      })

pub normalize_plugin_policy-known :
    (builtin : List String) (item : Json) (path : String)
    → Holds (enables_known builtin) (normalize_plugin_policy builtin item path)
unfolding normalize_plugin_policy
normalize_plugin_policy-known builtin item path =
    let p = enables_known builtin in
    Holds-bind p (record_value item path) _ (λ policy _.
      Holds-bind p (required id_value (lookup "id" policy) (path_of path ".id")) _ (λ id _.
        Holds-ensure p (not (is_true (lookup "remotePlugins" policy)))
          (text_of "remote plugins unsupported: " id) _
          (λ local.
            Holds-bind p
              (unique_strings (lookup "enabledPluginIds" policy) (path_of path ".enabledPluginIds"))
              _ (λ ids _. known_policy-known builtin id ids))))

-- The agent's provider is known, is enabled if the agent is, and is that of the profile that the agent
-- names.
is_profile_of : List ProfilePolicy → Option String → String → Bool
is_profile_of profiles none provider_id = true
is_profile_of profiles (some id) provider_id = elim (profile_by_id profiles id) [
  | none ↦ false
  | some q ↦ q.provider_id == provider_id
]

pub is_served : List ProfilePolicy → List String → List String → AgentPolicy → Bool
is_served profiles provider_ids enabled_ids a =
    includes provider_ids a.provider_id
    && (not a.enabled || includes enabled_ids a.provider_id)
    && is_profile_of profiles a.profile_id a.provider_id

provider-of_profile :
    (profiles : List ProfilePolicy) (profile_id : Option String) (profile : Option ProfilePolicy)
    (given : Option Json) (id path provider_id : String)
    → named (profile_by_id profiles) profile_id "unknown profile in agent: " ≡ ok profile
    → not (is_some given && is_some profile_id) ≡ true
    → agent_provider given profile id path ≡ ok provider_id
    → is_profile_of profiles profile_id provider_id ≡ true
unfolding is_profile_of
provider-of_profile profiles none profile given id path provider_id n c h = refl
provider-of_profile profiles (some q) profile (some v) id path provider_id n c h =
    absurd (ground (arith))
provider-of_profile profiles (some q) none none id path provider_id n c h = absurd (ground (arith))
provider-of_profile profiles (some q) (some row) none id path provider_id n c h =
    elim (Option-cases (profile_by_id profiles q)) [
      | inl e ↦ absurd (ground (arith))
      | inr (r, e) ↦ rw (is_profile_of, e) (ground (arith, eq_iff r.provider_id provider_id))
    ]

served_intro :
    (profiles : List ProfilePolicy) (provider_ids enabled_ids : List String) (a : AgentPolicy)
    → includes provider_ids a.provider_id ≡ true
    → (not a.enabled || includes enabled_ids a.provider_id) ≡ true
    → is_profile_of profiles a.profile_id a.provider_id ≡ true
    → is_served profiles provider_ids enabled_ids a ≡ true
unfolding is_served
served_intro profiles provider_ids enabled_ids a h k l = ground (arith)

module _ (profiles : List ProfilePolicy) (policies : List PluginPolicy)
    (provider_ids enabled_ids : List String) where
  agent_with-served :
      (agent : Dict Json) (path id : String) (enabled : Bool) (profile_id policy_id : Option String)
      (profile : Option ProfilePolicy) (policy : Option PluginPolicy) (provider_id : String)
      → is_profile_of profiles profile_id provider_id ≡ true
      → Holds (is_served profiles provider_ids enabled_ids) (
          agent_with profiles policies provider_ids enabled_ids agent path id enabled profile_id
            policy_id profile policy provider_id)
  agent_with-served agent path id enabled profile_id policy_id profile policy provider_id h =
      let p = is_served profiles provider_ids enabled_ids in
      Holds-ensure p (includes provider_ids provider_id)
        (text_of "unknown provider in agent: " provider_id) _
        (λ known.
          Holds-ensure p (not enabled || includes enabled_ids provider_id)
            (text_of "agent provider disabled: " provider_id) _
            (λ usable.
              Holds-bind p (non_empty_unique_ids (lookup "scopes" agent) (path_of path ".scopes"))
                (λ scopes. ok (record {
                  id = id;
                  provider_id = provider_id;
                  enabled = enabled;
                  profile_id = profile_id;
                  plugin_policy_id = policy_id;
                  scopes = scopes;
                  allowed_models = models_of profile;
                  default_model = default_of profile;
                  enabled_plugin_ids = plugins_of policy;
                }))
                (λ scopes _. record {
                  held = served_intro profiles provider_ids enabled_ids _ known usable h;
                })))

  pub normalize_agent-served :
      (item : Json) (path : String)
      → Holds
          (is_served profiles provider_ids enabled_ids)
          (normalize_agent profiles policies provider_ids enabled_ids item path)
  unfolding normalize_agent
  normalize_agent-served item path =
      let p = is_served profiles provider_ids enabled_ids in
      Holds-bind p (record_value item path) _ (λ agent _.
        Holds-bind p (required id_value (lookup "id" agent) (path_of path ".id")) _ (λ id _.
          Holds-bind p (enabled_value (lookup "enabled" agent) (path_of path ".enabled")) _
            (λ enabled _.
              Holds-bind p (optional_id (lookup "profileId" agent) (path_of path ".profileId")) _
                (λ profile_id _.
                  Holds-bind p
                    (optional_id (lookup "pluginPolicyId" agent) (path_of path ".pluginPolicyId")) _
                    (λ policy_id _.
                      Holds-bind p
                        (named (profile_by_id profiles) profile_id "unknown profile in agent: ") _
                        (λ profile n.
                          Holds-bind p
                            (named (policy_by_id policies) policy_id
                              "unknown plugin policy in agent: ")
                            _
                            (λ policy _.
                              Holds-ensure p
                                (not (is_some (lookup "providerId" agent) && is_some profile_id))
                                (text_of "conflicting provider/profile in agent: " id) _
                                (λ alone.
                                  Holds-bind p
                                    (agent_provider (lookup "providerId" agent) profile id
                                      (path_of path ".providerId"))
                                    _
                                    (λ provider_id given.
                                      agent_with-served agent path id enabled profile_id policy_id
                                        profile policy provider_id
                                        (provider-of_profile profiles profile_id profile
                                          (lookup "providerId" agent) id
                                          (path_of path ".providerId") provider_id n alone
                                          given))))))))))
