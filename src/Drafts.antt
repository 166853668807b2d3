-- ===== src/Drafts.antt =====
-- The drafts of agents, packages/proxy/src/http/agent-drafts.ts. The plugins that are known and those
-- that are enabled, the usage of an agent and the clock are arguments.
pub mod Laws
pub mod Bounds
pub mod Tests
use molenkopf.Base.{
  ℕ, zero, suc, ◌+◌, ◌-◌, ◌*◌, ◌/◌, ◌≤◌, ◌<◌, String, ◌≡◌, refl, sym, ap, ◌∙◌, ◌≢◌, ◌↔◌, ◌⊎◌, inl,
  inr, Bool, true, false, ◌&&◌, ◌||◌, not, Option, none, some, List, [], ◌∷◌, ◌++◌, map, arith,
  ◌==◌, eq_iff, eq_refl, ltb, leb, nat_eq, if◌then◌else◌, Bool-cases, Option-cases, or_else,
  or_option, is_some, Result, ok, fail, length, take, drop, filter, find, any, all, All,
  length-append, includes, includes-filter, includes-append, other_than, unique, includes-unique,
  IsUnique, filter-IsUnique, unique-IsUnique, all_mono, all-filter, all-of_includes,
  all-filter_self, all-const, filter-all, Dict, lookup, insert, erase, values, lookup-insert,
  lookup-erase, has, has-erase, all_rows, erase_all, map_values, is_empty, is_space, trim, size,
  every_char, is_digit, is_letter, is_id_char, is_slug,
}
use Prim.Native.Char.{code}
use Prim.Native.String
use molenkopf.Base.{to_lower, strip_prefix, first_chars}
use molenkopf.Runtime.{ProviderConfig, UsageTotals}
use molenkopf.Config.Values.{◌>>=◌}
use molenkopf.Config.{ensure}

-- A value of the request's body; a list has `none` for an item that is no text.
pub data Input : Type 0 where
  null_value : Input
  text_value : String → Input
  whole : ℕ → Input
  other_number : Input
  flag_value : Bool → Input
  list_value : List (Option String) → Input
  object_value : Input

pub record DraftError : Type 0 where
  pub status : ℕ
  pub error : String
  pub reason : Option String

pub data AgentKind : Type 0 where
  ci_agent local_agent external_agent : AgentKind

pub record AgentDraftMetadata : Type 0 where
  pub id : String
  pub label : String
  pub kind : AgentKind
  pub provider_id : String
  pub enabled_plugin_ids : List String
  pub token_hash : Option String
  pub disabled : Bool
  pub token_limit : Option ℕ
  pub created_at : String
  pub updated_at : String

pub record AgentDraftView : Type 0 where
  pub id : String
  pub label : String
  pub kind : AgentKind
  pub provider_id : String
  pub enabled_plugin_ids : List String
  pub disabled : Bool
  pub token_limit : Option ℕ
  pub created_at : String
  pub updated_at : String
  pub token_hash_present : Bool
  pub token_fingerprint : Option String
  pub usage : UsageTotals

abbrev pub max_agent_drafts : ℕ
max_agent_drafts = 25

abbrev pub max_plugin_ids : ℕ
max_plugin_ids = 20

abbrev pub failure : ℕ → String → DraftError
failure status error = record { status = status; error = error; reason = none }

abbrev pub failure_for : ℕ → String → String → DraftError
failure_for status error reason = record { status = status; error = error; reason = some reason }

-- `input[key] ?? …`: null is missing as well.
abbrev pub present : Option Input → Option Input
present none = none
present (some null_value) = none
present (some value) = some value

abbrev pub forbidden : List String
forbidden =
    "token" ∷ "apikey" ∷ "api_key" ∷ "secret" ∷ "credential" ∷ "password" ∷ "authorization" ∷ []

unfoldable pub raw_credential_field : Dict Input → Option String
unfolding to_lower
raw_credential_field [] = none
raw_credential_field ((key, value) ∷ rest) =
    let other = raw_credential_field rest in
    if includes forbidden (to_lower key) then some key else other

abbrev pub checked_text_id : String → Option String
checked_text_id id = if is_slug id then some id else none

unfoldable pub clean_id : Option Input → Option String
unfolding trim is_slug
clean_id (some (text_value s)) = checked_text_id (trim s)
clean_id _ = none

-- `replace(/\s+/g, " ")`, where `after_space` says that a space was just written.
abbrev pub collapse : Bool → String → String
collapse after_space String.[] = ""
collapse after_space (String.◌∷◌ c s) =
    if is_space (code c)
    then if after_space then collapse true s else String.◌++◌ " " (collapse true s)
    else String.◌∷◌ c (collapse false s)

abbrev pub checked_label : String → Option String
checked_label label = if not (is_empty label) && leb (size label) 80 then some label else none

unfoldable pub clean_label : Option Input → Option String
unfolding trim
clean_label (some (text_value s)) = checked_label (collapse false (trim s))
clean_label _ = none

abbrev pub kind_of_text : String → AgentKind
kind_of_text s =
    if s == "Local agent"
    then local_agent
    else if s == "External agent"
    then external_agent
    else ci_agent

abbrev pub clean_agent_kind : Option Input → Option AgentDraftMetadata → AgentKind
clean_agent_kind (some (text_value s)) existing = kind_of_text s
clean_agent_kind none (some draft) = draft.kind
clean_agent_kind none none = ci_agent
clean_agent_kind (some _) existing = ci_agent

abbrev pub is_hex_char : ℕ → Bool
is_hex_char c = is_digit c || (leb b'a' c && leb c b'f')

abbrev pub is_hash : String → Bool
is_hash s = nat_eq (size s) 64 && every_char is_hex_char s

-- The 64 digits of a hash, with or without `sha256:` in front, in lower case.
abbrev pub prefixed : Option String → String → Option String
prefixed (some digits) s = if is_hash digits then some (String.◌++◌ "sha256:" digits) else none
prefixed none s = if is_hash s then some (String.◌++◌ "sha256:" s) else none

abbrev pub hash_or : Option String → Result DraftError (Option String)
hash_or none = fail (failure 400 "invalid_token_hash")
hash_or (some hash) = ok (some hash)

abbrev pub is_sha : Option Input → Bool
is_sha none = true
is_sha (some (text_value s)) = s == "sha256"
is_sha (some _) = false

abbrev pub hash_of : Option AgentDraftMetadata → Option String
hash_of none = none
hash_of (some draft) = draft.token_hash

unfoldable pub text_hash : String → Option Input → Result DraftError (Option String)
unfolding to_lower strip_prefix
text_hash s algorithm =
    if is_empty s
    then ok none
    else ensure (is_sha algorithm) (failure 400 "unsupported_token_hash")
        (hash_or (prefixed (strip_prefix "sha256:" (to_lower s)) (to_lower s)))

unfoldable pub normalize_token_hash :
    Option Input → Option Input → Option AgentDraftMetadata → Result DraftError (Option String)
unfolding text_hash
normalize_token_hash none algorithm existing = ok (hash_of existing)
normalize_token_hash (some null_value) algorithm existing = ok none
normalize_token_hash (some (text_value s)) algorithm existing = text_hash s algorithm
normalize_token_hash (some _) algorithm existing =
    ensure (is_sha algorithm) (failure 400 "unsupported_token_hash")
      (fail (failure 400 "invalid_token_hash"))

-- The ids of a list, if all of them are ids.
abbrev pub clean_ids : List (Option String) → Option (List String)
clean_ids [] = some []
clean_ids (none ∷ items) = none
clean_ids (some s ∷ items) =
    let rest = clean_ids items in
    elim (clean_id (some (text_value s))) [
      | none ↦ none
      | some id ↦ elim rest [ none ↦ none | some ids ↦ some (id ∷ ids) ]
    ]

abbrev pub all_known : List String → List String → Result DraftError (List String)
all_known known ids = elim (find (λ id. not (includes known id)) ids) [
  | none ↦ ok ids
  | some id ↦ fail (failure_for 404 "unknown_plugin" id)
]

abbrev pub known_ids : List String → Option (List String) → Result DraftError (List String)
known_ids known none = fail (failure 400 "invalid_plugin_id")
known_ids known (some ids) = all_known known (unique ids)

abbrev pub plugins_of : Option AgentDraftMetadata → List String → List String
plugins_of none enabled = enabled
plugins_of (some draft) enabled = draft.enabled_plugin_ids

unfoldable pub normalize_plugin_ids :
    List String
    → List String
    → Option Input
    → Option AgentDraftMetadata
    → Result DraftError (List String)
unfolding clean_id
normalize_plugin_ids known enabled none existing = ok (plugins_of existing enabled)
normalize_plugin_ids known enabled (some (list_value items)) existing =
    ensure (leb (length items) max_plugin_ids) (failure 400 "invalid_plugin_ids")
      (known_ids known (clean_ids items))
normalize_plugin_ids known enabled (some _) existing = fail (failure 400 "invalid_plugin_ids")

abbrev pub limit_value : Option Input → Option ℕ → Result DraftError (Option ℕ)
limit_value none existing = ok existing
limit_value (some null_value) existing = ok none
limit_value (some (whole zero)) existing = ok none
limit_value (some (whole (suc n))) existing = ok (some (suc n))
limit_value (some _) existing = fail (failure 400 "invalid_token_limit")

abbrev pub flag_of : Option Input → Option AgentDraftMetadata → Bool
flag_of (some (flag_value b)) existing = b
flag_of _ none = false
flag_of _ (some draft) = draft.disabled

abbrev pub or_missing : DraftError → Option String → Result DraftError String
or_missing e none = fail e
or_missing e (some s) = ok s

abbrev pub has_draft_id : String → AgentDraftMetadata → Bool
has_draft_id id draft = draft.id == id

-- `input.label ?? input.name ?? existing?.label ?? id`
abbrev pub label_input : Dict Input → Option AgentDraftMetadata → String → Option Input
label_input input (some draft) id =
    or_option (present (lookup "label" input))
      (or_option (present (lookup "name" input)) (some (text_value draft.label)))
label_input input none id =
    or_option (present (lookup "label" input))
      (or_option (present (lookup "name" input)) (some (text_value id)))

abbrev pub provider_input : Dict Input → Option AgentDraftMetadata → String → Option Input
provider_input input (some draft) active =
    or_option (present (lookup "providerId" input)) (some (text_value draft.provider_id))
provider_input input none active =
    or_option (present (lookup "providerId" input)) (some (text_value active))

abbrev pub created_of : Option AgentDraftMetadata → String → String
created_of none now = now
created_of (some draft) now = draft.created_at

abbrev pub limit_of : Option AgentDraftMetadata → Option ℕ
limit_of none = none
limit_of (some draft) = draft.token_limit

abbrev pub provider_with : List ProviderConfig → Option String → Option ProviderConfig
provider_with providers none = none
provider_with providers (some id) = find (λ p. p.id == id) providers

abbrev pub or_unknown : Option ProviderConfig → Result DraftError ProviderConfig
or_unknown none = fail (failure 404 "unknown_provider")
or_unknown (some p) = ok p

abbrev pub is_off : Option Bool → Bool
is_off (some false) = true
is_off (some true) = false
is_off none = false

-- The draft at its place, or at the end.
abbrev pub stored : AgentDraftMetadata → List AgentDraftMetadata → List AgentDraftMetadata
stored draft [] = draft ∷ []
stored draft (d ∷ ds) =
    let rest = stored draft ds in if d.id == draft.id then draft ∷ ds else d ∷ rest

abbrev pub filled_text : Option String → Option String
filled_text none = none
filled_text (some s) = if is_empty s then none else some s

abbrev pub fingerprint : Option String → Option String
fingerprint none = none
fingerprint (some hash) = some (first_chars 15 hash)

-- What is shown of a draft: not its hash, but the first characters of it.
unfoldable pub view_draft : (String → UsageTotals) → AgentDraftMetadata → AgentDraftView
unfolding first_chars
view_draft usage draft = record {
  id = draft.id;
  label = draft.label;
  kind = draft.kind;
  provider_id = draft.provider_id;
  enabled_plugin_ids = draft.enabled_plugin_ids;
  disabled = draft.disabled;
  token_limit = draft.token_limit;
  created_at = draft.created_at;
  updated_at = draft.updated_at;
  token_hash_present = is_some (filled_text draft.token_hash);
  token_fingerprint = fingerprint (filled_text draft.token_hash);
  usage = usage draft.id;
}

module _ (known enabled : List String) (providers : List ProviderConfig) (active now : String) where
  -- The draft that an input asks for, given the one that has the id.
  unfoldable pub draft_with :
      Dict Input → String → Option AgentDraftMetadata → Result DraftError AgentDraftMetadata
  unfolding clean_label clean_id normalize_plugin_ids normalize_token_hash
  draft_with input id existing =
      or_missing (failure 400 "invalid_agent_label") (clean_label (label_input input existing id))
      >>= (λ label.
          or_unknown (provider_with providers (clean_id (provider_input input existing active)))
          >>= (λ provider.
              ensure (not (is_off provider.enabled)) (failure 409 "provider_disabled") (
                normalize_plugin_ids known enabled
                  (or_option (present (lookup "enabledPluginIds" input)) (lookup "pluginIds" input))
                  existing
                >>= (λ plugins.
                    normalize_token_hash (lookup "tokenHash" input)
                      (lookup "tokenHashAlgorithm" input) existing
                    >>= (λ hash.
                        limit_value (lookup "tokenLimit" input) (limit_of existing) >>= (λ limit.
                          ok (record {
                            id = id;
                            label = label;
                            kind = clean_agent_kind (present (lookup "kind" input)) existing;
                            provider_id = provider.id;
                            enabled_plugin_ids = plugins;
                            token_hash = hash;
                            disabled = flag_of (lookup "disabled" input) existing;
                            token_limit = limit;
                            created_at = created_of existing now;
                            updated_at = now;
                          })))))))

  abbrev pub has_room : Option AgentDraftMetadata → List AgentDraftMetadata → Bool
  has_room (some draft) drafts = true
  has_room none drafts = ltb (length drafts) max_agent_drafts

  abbrev pub new_draft :
      Dict Input → List AgentDraftMetadata → String → Result DraftError AgentDraftMetadata
  new_draft input drafts id =
      let existing = find (has_draft_id id) drafts in
      ensure (has_room existing drafts) (failure 409 "agent_draft_limit")
        (draft_with input id existing)

  abbrev pub answered :
      (String → UsageTotals)
      → List AgentDraftMetadata
      → Result DraftError AgentDraftMetadata
      → Result DraftError AgentDraftView × List AgentDraftMetadata
  answered usage drafts (fail e) = (fail e, drafts)
  answered usage drafts (ok draft) = (ok (view_draft usage draft), stored draft drafts)

  -- The draft, unless an error is found first.
  unfoldable pub checked_draft :
      Dict Input → List AgentDraftMetadata → Result DraftError AgentDraftMetadata
  unfolding raw_credential_field clean_id draft_with
  checked_draft input drafts = elim (raw_credential_field input) [
    | some field ↦
        fail (failure_for 400 "raw_token_rejected" (String.◌++◌ field " must be sent as tokenHash"))
    | none ↦
        or_missing (failure 400 "invalid_agent_id") (clean_id (lookup "id" input))
        >>= (λ id. new_draft input drafts id)
  ]

  unfoldable pub upsert_agent_draft :
      (String → UsageTotals)
      → Dict Input
      → List AgentDraftMetadata
      → Result DraftError AgentDraftView × List AgentDraftMetadata
  unfolding checked_draft view_draft
  upsert_agent_draft usage input drafts = answered usage drafts (checked_draft input drafts)

abbrev pub views : (String → UsageTotals) → List AgentDraftMetadata → List AgentDraftView
views usage [] = []
views usage (d ∷ ds) = view_draft usage d ∷ views usage ds

unfoldable pub list_agent_drafts :
    (String → UsageTotals) → List AgentDraftMetadata → List AgentDraftView
unfolding view_draft
list_agent_drafts usage drafts = views usage (take max_agent_drafts drafts)
