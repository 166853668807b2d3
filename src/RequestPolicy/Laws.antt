-- ===== src/RequestPolicy/Laws.antt =====
-- Which requests the policy lets pass, and with which model one is sent on.
use molenkopf.Base.{
  ◌⊎◌, ◌↔◌, none, ◌<◌, String, ◌≡◌, refl, inl, inr, true, false, Option, some, List, [], ◌∷◌, arith,
  Bool-cases, Option-cases, or_else, length, includes, is_empty, trim,
}
use molenkopf.RequestPolicy.{
  EffectiveRequestPolicy, ParsedJson, null_value, no_object, invalid_json, object, accepted,
  model_text, model_from_body, checked_by, enforce_model_policy, apply_default_model, sent_on,
}

-- What a policy with these models lets pass: everything where it lists none, and else a body that is
-- no object, an object whose model is missing or white space, or one whose model is listed.
pub data IsWithin (listed : Option (List String)) : Option ParsedJson → Type 0 where
  unlimited : {body : Option ParsedJson} → or_else listed [] ≡ [] → IsWithin listed body
  other_value : IsWithin listed (some no_object)
  unnamed : IsWithin listed (some (object none))
  blank : {m : String} → is_empty (trim m) ≡ true → IsWithin listed (some (object (some m)))
  names :
      {m : String}
      → is_empty (trim m) ≡ false
      → includes (or_else listed []) (trim m) ≡ true
      → IsWithin listed (some (object (some m)))

-- A body that cannot be read, or is null.
abbrev pub IsUnreadable : Option ParsedJson → Type 0
IsUnreadable body = (body ≡ none) ⊎ (body ≡ some null_value)

accepted-IsWithin :
    (listed : Option (List String)) (body : Option ParsedJson)
    → checked_by listed body ≡ accepted
    → IsWithin listed body
unfolding model_from_body
accepted-IsWithin none body h = unlimited refl
accepted-IsWithin (some []) body h = unlimited refl
accepted-IsWithin (some (x ∷ xs)) none h = absurd (cc h)
accepted-IsWithin (some (x ∷ xs)) (some null_value) h = absurd (cc h)
accepted-IsWithin (some (x ∷ xs)) (some no_object) h = other_value
accepted-IsWithin (some (x ∷ xs)) (some (object none)) h = unnamed
accepted-IsWithin (some (x ∷ xs)) (some (object (some m))) h =
    elim (Bool-cases (is_empty (trim m))) [ inl e ↦ blank e | inr e ↦ names e (ground arith) ]

IsWithin-accepted :
    (listed : Option (List String)) (body : Option ParsedJson)
    → IsWithin listed body
    → checked_by listed body ≡ accepted
unfolding model_from_body
IsWithin-accepted none body h = refl
IsWithin-accepted (some []) body h = refl
IsWithin-accepted (some (x ∷ xs)) body (unlimited e) = absurd (cc e)
IsWithin-accepted (some (x ∷ xs)) _ other_value = refl
IsWithin-accepted (some (x ∷ xs)) _ unnamed = refl
IsWithin-accepted (some (x ∷ xs)) _ (blank e) = rw e refl
IsWithin-accepted (some (x ∷ xs)) _ (names e h) = rw (e, h) refl

invalid-IsUnreadable :
    (listed : Option (List String)) (body : Option ParsedJson)
    → checked_by listed body ≡ invalid_json
    → (0 < length (or_else listed [])) × IsUnreadable body
unfolding model_from_body
invalid-IsUnreadable none body h = absurd (cc h)
invalid-IsUnreadable (some []) body h = absurd (cc h)
invalid-IsUnreadable (some (x ∷ xs)) none h = (omega arith, inl refl)
invalid-IsUnreadable (some (x ∷ xs)) (some null_value) h = (omega arith, inr refl)
invalid-IsUnreadable (some (x ∷ xs)) (some no_object) h = absurd (cc h)
invalid-IsUnreadable (some (x ∷ xs)) (some (object none)) h = absurd (cc h)
invalid-IsUnreadable (some (x ∷ xs)) (some (object (some m))) h =
    absurd (ground (arith, Bool-cases (is_empty (trim m)), Bool-cases (includes (x ∷ xs) (trim m))))

IsUnreadable-invalid :
    (listed : Option (List String)) (body : Option ParsedJson)
    → 0 < length (or_else listed [])
    → IsUnreadable body
    → checked_by listed body ≡ invalid_json
unfolding model_from_body
IsUnreadable-invalid none body pos h = absurd (omega (arith, pos))
IsUnreadable-invalid (some []) body pos h = absurd (omega (arith, pos))
IsUnreadable-invalid (some (x ∷ xs)) body pos (inl e) = rw e refl
IsUnreadable-invalid (some (x ∷ xs)) body pos (inr e) = rw e refl

-- A request passes exactly where the policy lists no models, or its body is no object, or an object
-- whose model is missing or white space, or one whose model, without the white space around it, is
-- listed; it is refused as unreadable exactly where the policy lists models and the body cannot be
-- read or is null. What is left is refused for its model.
pub enforce_model_policy-IsWithin :
    (policy : EffectiveRequestPolicy) (body : Option ParsedJson)
    → ((enforce_model_policy policy body ≡ accepted) ↔ IsWithin policy.allowed_models body)
      × ((enforce_model_policy policy body ≡ invalid_json)
          ↔ ((0 < length (or_else policy.allowed_models [])) × IsUnreadable body))
unfolding enforce_model_policy
enforce_model_policy-IsWithin policy body = (
  (accepted-IsWithin policy.allowed_models body, IsWithin-accepted policy.allowed_models body),
  (
    invalid-IsUnreadable policy.allowed_models body,
    λ h. IsUnreadable-invalid policy.allowed_models body h.0 h.1,
  ),
)

trim-empty : (d : String) → is_empty d ≡ true → is_empty (trim d) ≡ true
unfolding trim
trim-empty String.[] h = refl
trim-empty (String.◌∷◌ c s) h = cc

-- With a default model that is more than white space, a body that is an object is sent on
-- with a model: the one that it names, or, where it names none, the default.
pub apply_default_model-names :
    (policy : EffectiveRequestPolicy) (d : String) (model : Option String)
    → policy.default_model ≡ some d
    → is_empty (trim d) ≡ false
    → model_from_body
        (sent_on (some (object model)) (apply_default_model policy (some (object model))))
      ≡ some (some (or_else (model_text model) (trim d)))
unfolding apply_default_model model_from_body
apply_default_model-names policy d model e named = elim (Bool-cases (is_empty d)) [
  | inl h ↦ absurd (ground (arith, trim-empty d h))
  | inr h ↦ ground (arith, Option-cases (model_text model))
]
