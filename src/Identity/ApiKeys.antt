-- ===== src/Identity/ApiKeys.antt =====
-- Issuing, presenting and revoking API keys, packages/core/src/identity/api-keys.ts. The hash of a
-- secret (SHA-256 of the runtime), the random secret, the random ids and the clock are arguments; a
-- text with no character left counts as missing, as `|| undefined` has it.
pub mod Laws
use molenkopf.Base.{
  ℕ, zero, suc, ◌+◌, ◌-◌, ◌*◌, ◌/◌, ◌≤◌, ◌<◌, String, ◌≡◌, refl, sym, ap, ◌∙◌, ◌≢◌, ◌↔◌, ◌⊎◌, inl,
  inr, Bool, true, false, ◌&&◌, ◌||◌, not, Option, none, some, List, [], ◌∷◌, ◌++◌, map, arith,
  ◌==◌, eq_iff, eq_refl, ltb, leb, nat_eq, if◌then◌else◌, Bool-cases, Option-cases, or_else,
  or_option, is_some, ◌>>=◌, Result, ok, fail, length, take, drop, filter, find, any, all, All,
  length-append, includes, includes-filter, includes-append, other_than, unique, includes-unique,
  IsUnique, filter-IsUnique, unique-IsUnique, all_mono, all-filter, all-of_includes,
  all-filter_self, all-const, filter-all, Dict, lookup, insert, erase, values, lookup-insert,
  lookup-erase, has, has-erase, all_rows, erase_all, map_values, update, is_empty, is_space, trim,
  size, every_char, is_digit, is_letter, is_id_char, is_slug,
}
use molenkopf.Base.{keep_chars, first_chars, is_word}
use molenkopf.Identity.{Budget, User, Team, ApiKey, IdentityData, flag}
use molenkopf.Identity.TeamScope.{
  default_team_id, is_default_team_id, non_default_team_ids, has_any,
}
use molenkopf.Identity.Validation.{is_sha256}
use molenkopf.Identity.Store.{Store, StoreError, key_id_collision, save}

pub record IssueOptions : Type 0 where
  pub agent_label : Option String
  pub project : String
  pub team_id : Option String
  pub scopes : Option (List String)
  pub budget : Option Budget

abbrev is_label_char : ℕ → Bool
is_label_char c =
    is_word c || nat_eq c b' ' || nat_eq c b'.' || nat_eq c b'@' || nat_eq c b':' || nat_eq c b'-'

abbrev is_project_char : ℕ → Bool
is_project_char c =
    is_word c || nat_eq c b' ' || nat_eq c b'.' || nat_eq c b'@' || nat_eq c b'/' || nat_eq c b'-'

-- `s || undefined`
abbrev or_missing : String → Option String
or_missing s = if is_empty s then none else some s

abbrev cleaned : (ℕ → Bool) → ℕ → Option String → Option String
cleaned p most none = none
cleaned p most (some value) = or_missing (first_chars most (trim (keep_chars p value)))

unfoldable pub clean_key_label : Option String → Option String
unfolding keep_chars first_chars trim
clean_key_label value = cleaned is_label_char 64 value

unfoldable pub clean_key_project : Option String → Option String
unfolding keep_chars first_chars trim
clean_key_project value = cleaned is_project_char 80 value

-- The scopes without repetition, `none` where one of them is no identifier.
clean_scopes_from : List String → List String → Option (List String)
clean_scopes_from out [] = if has_any out then some out else none
clean_scopes_from out (scope ∷ scopes) =
    let rest = clean_scopes_from (if includes out scope then out else out ++ scope ∷ []) scopes in
    if is_slug scope then rest else none

-- `cleanScopes`: `none` is the refusal `false`, `some none` an unset list.
unfoldable pub clean_scopes : Option (List String) → Option (Option (List String))
unfolding clean_scopes_from
clean_scopes none = some none
clean_scopes (some scopes) = elim (clean_scopes_from [] scopes) [
  | none ↦ none
  | some out ↦ some (some out)
]

-- The only billing team, or the default one; `none` is the refusal.
billing_team : List String → User → Option (Option String)
billing_team [] owner =
    some (if includes owner.team_ids default_team_id then some default_team_id else none)
billing_team (t ∷ []) owner = some (some t)
billing_team (t ∷ u ∷ ts) owner = none

named_team : IdentityData → User → String → Option (Option String)
named_team d owner team_id =
    if not (has team_id d.teams) || not (includes owner.team_ids team_id)
    then none
    else if is_default_team_id team_id && has_any (non_default_team_ids owner.team_ids)
    then none
    else some (some team_id)

-- `resolveIssueTeam`: `none` is the refusal `false`, `some none` no team.
unfoldable pub resolve_issue_team : IdentityData → User → Option String → Option (Option String)
unfolding trim billing_team named_team
resolve_issue_team d owner none = billing_team (non_default_team_ids owner.team_ids) owner
resolve_issue_team d owner (some value) =
    let team_id = trim value in
    if is_empty team_id
    then billing_team (non_default_team_ids owner.team_ids) owner
    else named_team d owner team_id

abbrev at_most_one : List String → Bool
at_most_one [] = true
at_most_one (t ∷ []) = true
at_most_one (t ∷ u ∷ ts) = false

-- A key's team must be there and be a team of the owner; an empty id counts as missing.
abbrev pub team_usable : IdentityData → User → Option String → Bool
team_usable d owner none = at_most_one (non_default_team_ids owner.team_ids)
team_usable d owner (some team_id) =
    if is_empty team_id
    then at_most_one (non_default_team_ids owner.team_ids)
    else has team_id d.teams && includes owner.team_ids team_id

abbrev pub usable_by : IdentityData → ApiKey → Option User → Bool
usable_by d key none = false
usable_by d key (some owner) =
    not (flag owner.disabled)
    && is_some (clean_key_project key.project)
    && team_usable d owner key.team_id

unfoldable pub key_usable : IdentityData → ApiKey → Bool
unfolding clean_key_project
key_usable d key = usable_by d key (lookup key.owner_user_id d.users)

-- Only two well-formed hashes are ever equal.
unfoldable pub equal_hex : String → String → Bool
unfolding is_sha256
equal_hex a b = is_sha256 a && is_sha256 b && a == b

authenticate_among : IdentityData → String → List ApiKey → Option ApiKey
authenticate_among d candidate [] = none
authenticate_among d candidate (key ∷ keys) =
    if not (flag key.disabled) && equal_hex candidate key.hash && key_usable d key
    then some key
    else authenticate_among d candidate keys

module _ (hash_secret : String → String) where
  abbrev presented_key : IdentityData → String → Option ApiKey
  presented_key d secret = authenticate_among d (hash_secret secret) (values d.keys)

  unfoldable pub authenticate_key : IdentityData → Option String → Option ApiKey
  unfolding authenticate_among
  authenticate_key d none = none
  authenticate_key d (some secret) = if is_empty secret then none else presented_key d secret

  -- The key that `issueApiKey` enters, where the options are accepted.
  unfoldable pub prepare_key :
      IdentityData → String → IssueOptions → String → String → ℕ → Option ApiKey
  unfolding clean_key_project clean_key_label clean_scopes resolve_issue_team first_chars
  prepare_key d owner_user_id opts key_id secret now = do
    owner ← lookup owner_user_id d.users
    active ← (if flag owner.disabled then none else some owner)
    project ← clean_key_project (some opts.project)
    team_id ← resolve_issue_team d active opts.team_id
    scopes ← clean_scopes opts.scopes
    some (record {
      id = key_id;
      hash = hash_secret secret;
      prefix = first_chars 8 secret;
      owner_user_id = owner_user_id;
      team_id = team_id;
      agent_label = clean_key_label opts.agent_label;
      project = some project;
      scopes = scopes;
      budget = opts.budget;
      disabled = none;
      created_at = now;
      last_used_at = none;
    })

abbrev pub with_key : ApiKey → IdentityData → IdentityData
with_key key d = record d { keys = insert key.id key d.keys }

abbrev pub or_restored :
    Store → Result StoreError Store → ApiKey → Store × Result StoreError (Option ApiKey)
or_restored s (ok s') key = (s', ok (some key))
or_restored s (fail e) key = (s, fail e)

-- `newKeyId`: the first of ten random ids that is free; `none` is the error it throws.
new_key_id_from : IdentityData → List String → Option String
new_key_id_from d ids = find (λ id. not (has id d.keys)) (take 10 ids)

unfoldable pub new_key_id : IdentityData → List String → Option String
unfolding new_key_id_from
new_key_id d ids = new_key_id_from d ids

-- `issueApiKey`: the row is taken out again where the save fails.
unfoldable pub issue_api_key :
    (String → String)
    → Bool
    → Store
    → String
    → IssueOptions
    → List String
    → String
    → ℕ
    → Store × Result StoreError (Option ApiKey)
unfolding prepare_key new_key_id
issue_api_key hash_secret commits s owner_user_id opts ids secret now =
    elim (new_key_id s.data_now ids) [
      | none ↦
          if is_some (prepare_key hash_secret s.data_now owner_user_id opts "" secret now)
          then (s, fail key_id_collision)
          else (s, ok none)
      | some key_id ↦
          elim (prepare_key hash_secret s.data_now owner_user_id opts key_id secret now) [
            | none ↦ (s, ok none)
            | some key ↦
                or_restored s (save commits (record s { data_now = with_key key s.data_now })) key
          ]
    ]

abbrev pub disable : ApiKey → ApiKey
disable key = record key { disabled = some true }

abbrev pub revoked_or_restored : Store → Result StoreError Store → Store × Result StoreError Bool
revoked_or_restored s (ok s') = (s', ok true)
revoked_or_restored s (fail e) = (s, fail e)

revoke_row : Bool → Store → String → Option ApiKey → Store × Result StoreError Bool
revoke_row commits s id none = (s, ok false)
revoke_row commits s id (some key) =
    if flag key.disabled
    then (s, ok false)
    else revoked_or_restored s (
        save commits
          (record s { data_now = record s.data_now { keys = update id disable s.data_now.keys } }))

unfoldable pub revoke_key : Bool → String → Store → Store × Result StoreError Bool
unfolding revoke_row
revoke_key commits id s = revoke_row commits s id (lookup id s.data_now.keys)

-- `listKeys`; an empty id lists every key.
unfoldable pub list_keys : IdentityData → Option String → List ApiKey
list_keys d none = values d.keys
list_keys d (some owner) = filter (λ k. is_empty owner || k.owner_user_id == owner) (values d.keys)
