-- ===== src/Drafts/Laws.antt =====
-- What holds of the drafts after a request.
use molenkopf.Base.{
  String, ◌≡◌, refl, inl, inr, Bool, true, false, ◌&&◌, ◌||◌, not, Option, none, some, List, [],
  ◌∷◌, arith, ◌==◌, eq_refl, ltb, leb, Bool-cases, or_option, is_some, Result, ok, fail, length,
  find, any, all, IsUnique, Dict, lookup, is_empty,
}
use Prim.Native.String
use text.Mathlib.TextLemmas.{nil-append, cons-append}
use molenkopf.Base.{if-both, to_lower, strip_prefix}
use molenkopf.Runtime.{ProviderConfig}
use molenkopf.Config.{ensure}
use molenkopf.Config.Laws.{Holds, Holds-bind, Holds-ensure, Holds-ok}
use molenkopf.Drafts.{
  Input, null_value, text_value, whole, other_number, flag_value, list_value, object_value,
  DraftError, failure, AgentDraftMetadata, max_agent_drafts, present, clean_id, clean_label,
  label_input, provider_input, provider_with, or_unknown, or_missing, is_hash, prefixed, hash_or,
  is_sha, hash_of, text_hash, normalize_token_hash, normalize_plugin_ids, limit_value, limit_of,
  is_off, has_draft_id, draft_with, created_of, flag_of, clean_agent_kind,
}

strip_prefix-append : (t s : String) → strip_prefix t (String.◌++◌ t s) ≡ some s
unfolding strip_prefix
strip_prefix-append String.[] s = rw (nil-append s)
strip_prefix-append (String.◌∷◌ c t) s =
    rw (cons-append c t s) (ground (arith, strip_prefix-append t s))

-- `sha256:` and 64 hexadecimal digits.
pub is_hash_text : String → Bool
unfolding strip_prefix
is_hash_text s = elim (strip_prefix "sha256:" s) [ none ↦ false | some digits ↦ is_hash digits ]

abbrev pub is_hash_option : Option String → Bool
is_hash_option none = true
is_hash_option (some s) = is_hash_text s

abbrev pub draft_ids : List AgentDraftMetadata → List String
draft_ids [] = []
draft_ids (d ∷ ds) = d.id ∷ draft_ids ds

-- At most 25 drafts, no id twice, and of tokens only SHA-256 hashes.
pub record IsDrafts (drafts : List AgentDraftMetadata) : Type 0 where
  pub few : leb (length drafts) max_agent_drafts ≡ true
  pub once : IsUnique (draft_ids drafts)
  pub hashed : all (λ d. is_hash_option d.token_hash) drafts ≡ true

is_hash_text-append :
    (digits : String) → is_hash digits ≡ true → is_hash_text (String.◌++◌ "sha256:" digits) ≡ true
unfolding is_hash_text
is_hash_text-append digits h = rw (is_hash_text, strip_prefix-append "sha256:" digits) h

prefixed-hashed :
    (stripped : Option String) (s : String) → Holds is_hash_option (hash_or (prefixed stripped s))
prefixed-hashed (some digits) s = elim (Bool-cases (is_hash digits)) [
  | inl e ↦ record { held = rw (e) (is_hash_text-append digits e) }
  | inr e ↦ record { held = rw (e) refl }
]
prefixed-hashed none s = elim (Bool-cases (is_hash s)) [
  | inl e ↦ record { held = rw (e) (is_hash_text-append s e) }
  | inr e ↦ record { held = rw (e) refl }
]

text_hash-hashed :
    (s : String) (algorithm : Option Input) → Holds is_hash_option (text_hash s algorithm)
unfolding text_hash
text_hash-hashed s algorithm =
    if-both (λ (r : Result DraftError (Option String)). Holds is_hash_option r) (is_empty s) _ _
      (λ _. record { held = refl })
      (λ _.
        Holds-ensure is_hash_option (is_sha algorithm) (failure 400 "unsupported_token_hash") _
          (λ _. prefixed-hashed (strip_prefix "sha256:" (to_lower s)) (to_lower s)))

bad_hash :
    (algorithm : Option Input)
    → Holds is_hash_option (
        ensure
          (is_sha algorithm)
          (failure 400 "unsupported_token_hash")
          (fail (failure 400 "invalid_token_hash")))
bad_hash algorithm =
    Holds-ensure is_hash_option (is_sha algorithm) (failure 400 "unsupported_token_hash") _
      (λ _. record { held = refl })

normalize_token_hash-hashed :
    (value algorithm : Option Input) (existing : Option AgentDraftMetadata)
    → is_hash_option (hash_of existing) ≡ true
    → Holds is_hash_option (normalize_token_hash value algorithm existing)
unfolding normalize_token_hash
normalize_token_hash-hashed none algorithm existing h = record { held = h }
normalize_token_hash-hashed (some null_value) algorithm existing h = record { held = refl }
normalize_token_hash-hashed (some (text_value s)) algorithm existing h =
    text_hash-hashed s algorithm
normalize_token_hash-hashed (some (whole n)) algorithm existing h = bad_hash algorithm
normalize_token_hash-hashed (some other_number) algorithm existing h = bad_hash algorithm
normalize_token_hash-hashed (some (flag_value b)) algorithm existing h = bad_hash algorithm
normalize_token_hash-hashed (some (list_value items)) algorithm existing h = bad_hash algorithm
normalize_token_hash-hashed (some object_value) algorithm existing h = bad_hash algorithm

pub Holds-mono :
    {A : Type 0} (p q : A → Bool)
    → ((a : A) → p a ≡ true → q a ≡ true)
    → (r : Result DraftError A) → Holds p r
    → Holds q r
Holds-mono p q h (ok a) k = record { held = h a k.held }
Holds-mono p q h (fail e) k = record { held = refl }

pub find-some : {A : Type 0} (p : A → Bool) (xs : List A) → is_some (find p xs) ≡ any p xs
find-some p [] = refl
find-some p (x ∷ xs) = ground (arith, find-some p xs)

-- The hash of the draft that is found is one.
pub found-hashed :
    (id : String) (drafts : List AgentDraftMetadata)
    → all (λ d. is_hash_option d.token_hash) drafts ≡ true
    → is_hash_option (hash_of (find (has_draft_id id) drafts)) ≡ true
found-hashed id [] h = refl
found-hashed id (d ∷ ds) h = elim (Bool-cases (has_draft_id id d)) [
  | inl e ↦ rw (e) (ground (arith))
  | inr e ↦ rw (e) (found-hashed id ds (ground (arith)))
]

unfoldable pub is_sound : String → AgentDraftMetadata → Bool
is_sound id d = is_hash_option d.token_hash && d.id == id

-- The draft has a hash or none, and there is a place for it.
unfoldable pub fits : List AgentDraftMetadata → AgentDraftMetadata → Bool
fits drafts d =
    is_hash_option d.token_hash
    && (any (has_draft_id d.id) drafts || ltb (length drafts) max_agent_drafts)

module _ (known enabled : List String) (providers : List ProviderConfig) (active now : String) where
  sound_intro :
      (id : String) (hash : Option String) (d : AgentDraftMetadata)
      → d.token_hash ≡ hash
      → d.id ≡ id
      → is_hash_option hash ≡ true
      → is_sound id d ≡ true
  unfolding is_sound
  sound_intro id hash d h k l = rw (h, k, l) (eq_refl id)

  pub draft_with_sound :
      (input : Dict Input) (id : String) (existing : Option AgentDraftMetadata)
      → is_hash_option (hash_of existing) ≡ true
      → Holds (is_sound id) (draft_with known enabled providers active now input id existing)
  unfolding draft_with
  draft_with_sound input id existing h =
      let p = is_sound id in
      let plugin_input =
        or_option (present (lookup "enabledPluginIds" input)) (lookup "pluginIds" input) in
      Holds-bind p
        (or_missing (failure 400 "invalid_agent_label")
          (clean_label (label_input input existing id)))
        _
        (λ label _.
          Holds-bind p
            (or_unknown (provider_with providers (clean_id (provider_input input existing active))))
            _
            (λ provider _.
              Holds-ensure p (not (is_off provider.enabled)) (failure 409 "provider_disabled") _
                (λ on.
                  Holds-bind p (normalize_plugin_ids known enabled plugin_input existing) _
                    (λ plugins _.
                      Holds-bind p
                        (normalize_token_hash (lookup "tokenHash" input)
                          (lookup "tokenHashAlgorithm" input) existing)
                        _
                        (λ hash e.
                          Holds-bind p (limit_value (lookup "tokenLimit" input) (limit_of existing))
                            (λ limit. ok (record {
                              id = id;
                              label = label;
                              kind = clean_agent_kind (present (lookup "kind" input)) existing;
                              provider_id = provider.id;
                              enabled_plugin_ids = plugins;
                              token_hash = hash;
                              disabled = flag_of (lookup "disabled" input) existing;
                              token_limit = limit;
                              created_at = created_of existing now;
                              updated_at = now;
                            }))
                            (λ limit _. record {
                              held = sound_intro id hash _ refl refl (
                                  Holds-ok is_hash_option
                                    (normalize_token_hash (lookup "tokenHash" input)
                                      (lookup "tokenHashAlgorithm" input) existing)
                                    hash
                                    (normalize_token_hash-hashed (lookup "tokenHash" input)
                                      (lookup "tokenHashAlgorithm" input) existing h)
                                    e);
                            }))))))
