-- ===== src/Identity/Validation.antt =====
-- The checks on identity data, packages/core/src/identity/identity-validation.ts. Where the source
-- tests the type of a value that it read, the types of the model give the answer; what is left are
-- the tests on the texts and the references between the rows. Lengths count code points.
use Prim.Native.Char.{code}
use molenkopf.Base.{
  ℕ, ◌+◌, String, Bool, true, false, ◌&&◌, ◌||◌, Option, none, some, all, has, all_rows, leb, ltb,
  nat_eq, size, every_char, is_slug, is_letter, is_digit, is_some, is_empty, if◌then◌else◌, ◌==◌,
}
use molenkopf.Identity.{Budget, User, Team, ApiKey, IdentityData, identity_schema_version}

-- `limit` of packages/core/src/identity/budget.ts on a limit that is there
abbrev limit_ok : Option ℕ → Bool
limit_ok none = true
limit_ok (some n) = ltb 0 n

unfoldable pub is_budget : Budget → Bool
is_budget b =
    limit_ok b.token_limit
    && limit_ok b.cost_limit_eur
    && (is_some b.token_limit || is_some b.cost_limit_eur)

abbrev optional {ℓ} : {A : Type ℓ} → (A → Bool) → Option A → Bool
optional p none = true
optional p (some a) = p a

abbrev is_local_char : ℕ → Bool
is_local_char c =
    is_letter c
    || is_digit c
    || nat_eq c b'.'
    || nat_eq c b'_'
    || nat_eq c b'%'
    || nat_eq c b'+'
    || nat_eq c b'-'

abbrev is_domain_char : ℕ → Bool
is_domain_char c = is_letter c || is_digit c || nat_eq c b'.' || nat_eq c b'-'

is_domain : ℕ → String → Bool
is_domain n String.[] = false
is_domain n (String.◌∷◌ c s) =
    (nat_eq (code c) b'.'
      && leb 1 n
      && leb n 190
      && every_char is_letter s
      && leb 2 (size s)
      && leb (size s) 24)
    || (is_domain_char (code c) && is_domain (n + 1) s)

is_local : ℕ → String → Bool
unfolding is_domain
is_local n String.[] = false
is_local n (String.◌∷◌ c s) =
    if nat_eq (code c) b'@'
    then leb 1 n && leb n 64 && is_domain 0 s
    else is_local_char (code c) && is_local (n + 1) s

-- An identifier or an address, `isUserId`.
unfoldable pub is_user_id : String → Bool
unfolding is_slug is_local
is_user_id value = is_slug value || (leb (size value) 254 && is_local 0 value)

abbrev is_hex : ℕ → Bool
is_hex c = is_digit c || (leb b'a' c && leb c b'f')

unfoldable pub is_sha256 : String → Bool
is_sha256 value = nat_eq (size value) 64 && every_char is_hex value

abbrev is_key_char : ℕ → Bool
is_key_char c = is_letter c || is_digit c || nat_eq c b'_' || nat_eq c b'-'

-- `/^mk_[a-z0-9_-]{1,5}$/i`
is_key_prefix : String → Bool
is_key_prefix (String.◌∷◌ m (String.◌∷◌ k (String.◌∷◌ u s))) =
    (nat_eq (code m) b'm' || nat_eq (code m) b'M')
    && (nat_eq (code k) b'k' || nat_eq (code k) b'K')
    && nat_eq (code u) b'_'
    && every_char is_key_char s
    && leb 1 (size s)
    && leb (size s) 5
is_key_prefix _ = false

abbrev is_printable : ℕ → Bool
is_printable c = leb 32 c

text_field : ℕ → String → Bool
text_field most value = leb (size value) most && every_char is_printable value

-- `Number.isSafeInteger`
abbrev is_safe_integer : ℕ → Bool
is_safe_integer n = leb n 9007199254740991

unfoldable pub is_identity_user : User → Bool
unfolding is_user_id is_budget
is_identity_user u =
    is_user_id u.id
    && optional is_budget u.budget
    && optional is_user_id u.created_by
    && optional is_safe_integer u.session_version

unfoldable pub is_identity_team : Team → Bool
unfolding is_slug is_budget
is_identity_team t = is_slug t.id && optional is_budget t.budget

unfoldable pub is_identity_api_key : ApiKey → Bool
unfolding is_slug is_sha256 is_key_prefix is_user_id text_field is_budget
is_identity_api_key k =
    is_slug k.id
    && is_sha256 k.hash
    && is_key_prefix k.prefix
    && is_user_id k.owner_user_id
    && optional is_slug k.team_id
    && optional (text_field 64) k.agent_label
    && optional (text_field 80) k.project
    && optional is_budget k.budget

abbrev pub user_refs : IdentityData → User → Bool
user_refs d u = all (λ id. has id d.teams) u.team_ids

abbrev pub team_refs : IdentityData → Team → Bool
team_refs d t = all (λ id. has id d.users) t.manager_ids

-- An empty team id counts as missing.
abbrev pub key_team_ok : IdentityData → Option String → Bool
key_team_ok d none = true
key_team_ok d (some t) = is_empty t || has t d.teams

abbrev pub key_refs : IdentityData → ApiKey → Bool
key_refs d k = has k.owner_user_id d.users && key_team_ok d k.team_id

-- `validateIdentityReferences`, which throws where this is false.
unfoldable pub validate_identity_references : IdentityData → Bool
validate_identity_references d =
    all_rows (λ _ u. user_refs d u) d.users
    && all_rows (λ _ t. team_refs d t) d.teams
    && all_rows (λ _ k. key_refs d k) d.keys

unfoldable pub org_budget_ok : IdentityData → Bool
unfolding is_budget
org_budget_ok d = optional is_budget d.org_budget

-- `validateIdentityData`; each row stands under its own id.
unfoldable pub validate_identity_data : IdentityData → Bool
unfolding is_identity_user is_identity_team is_identity_api_key org_budget_ok
    validate_identity_references
validate_identity_data d =
    nat_eq d.schema_version identity_schema_version
    && all_rows (λ id u. is_identity_user u && u.id == id) d.users
    && all_rows (λ id t. is_identity_team t && t.id == id) d.teams
    && all_rows (λ id k. is_identity_api_key k && k.id == id) d.keys
    && org_budget_ok d
    && validate_identity_references d
