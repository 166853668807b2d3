-- ===== src/RequestPolicy/Tests.antt =====
-- The theorems on models at a policy with two models and a default.
use molenkopf.Base.{
  Option, ◌<◌, ◌↔◌, length, or_else, ◌≡◌, refl, false, some, [], ◌∷◌, is_empty, trim,
}
use molenkopf.RequestPolicy.{
  EffectiveRequestPolicy, no_policy, ParsedJson, invalid_json, object, accepted,
  enforce_model_policy,
}
use molenkopf.RequestPolicy.Laws.{IsWithin, IsUnreadable, enforce_model_policy-IsWithin}

abbrev two_models : EffectiveRequestPolicy
two_models = record no_policy {
  allowed_models = some ("small" ∷ "large" ∷ []);
  default_model = some "small";
}

abbrev large_body : Option ParsedJson
large_body = some (object (some " large "))

large-accepted : enforce_model_policy two_models large_body ≡ accepted
unfolding enforce_model_policy trim
large-accepted = refl

enforce_model_policy_example :
    ((enforce_model_policy two_models large_body ≡ accepted)
      ↔ IsWithin two_models.allowed_models large_body)
    × ((enforce_model_policy two_models large_body ≡ invalid_json)
        ↔ ((0 < length (or_else two_models.allowed_models [])) × IsUnreadable large_body))
enforce_model_policy_example = enforce_model_policy-IsWithin two_models large_body

small-named : is_empty (trim "small") ≡ false
unfolding trim
small-named = refl
