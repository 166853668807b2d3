-- ===== src/Routing/Clients.antt =====
-- Who a proxied request is from, packages/proxy/src/http/proxy-identity.ts: the secret that it
-- presents, the key that the secret authenticates as, and the client that the key stands for. The
-- hashes are arguments; that the key's use is noted changes no answer and is left out.
pub mod Laws
use molenkopf.Base.{
  ℕ, zero, suc, ◌+◌, ◌-◌, ◌*◌, ◌/◌, ◌≤◌, ◌<◌, String, ◌≡◌, refl, sym, ap, ◌∙◌, ◌≢◌, ◌↔◌, ◌⊎◌, inl,
  inr, Bool, true, false, ◌&&◌, ◌||◌, not, Option, none, some, List, [], ◌∷◌, ◌++◌, map, arith,
  ◌==◌, eq_iff, eq_refl, ltb, leb, nat_eq, if◌then◌else◌, Bool-cases, Option-cases, or_else,
  or_option, is_some, ◌>>=◌, Result, ok, fail, length, take, drop, filter, find, any, all, All,
  length-append, includes, includes-filter, includes-append, other_than, unique, includes-unique,
  IsUnique, filter-IsUnique, unique-IsUnique, all_mono, all-filter, all-of_includes,
  all-filter_self, all-const, filter-all, Dict, lookup, insert, erase, values, lookup-insert,
  lookup-erase, has, has-erase, all_rows, erase_all, map_values, is_empty, is_space, trim, size,
  every_char, is_digit, is_letter, is_id_char, is_slug,
}
use Prim.Native.String
use molenkopf.Base.{strip_prefix, drop_chars, first_chars, to_lower}
use molenkopf.Identity.{User, ApiKey, IdentityData, only}
use molenkopf.Identity.TeamScope.{scoped_identity_team_ids}
use molenkopf.Identity.ApiKeys.{authenticate_key}
use molenkopf.Client.{
  ClientIdentity, Headers, api_key, agent_id_from_headers, safe_subject_id, derive_client_identity,
  client_id_for_user,
}
use molenkopf.Routing.Access.{effective_provider_allowlist}

pub record ResolvedIdentity : Type 0 where
  pub client : ClientIdentity
  pub presented_key : Bool
  pub key_ok : Bool

abbrev pub is_secret : String → Bool
is_secret s = is_some (strip_prefix "mk_" s)

abbrev trimmed : Option String → Option String
trimmed none = none
trimmed (some s) = some (trim s)

-- The value without the scheme `Bearer`, in any case.
abbrev bearer_token : String → String
bearer_token value =
    if is_some (strip_prefix "bearer " (to_lower value))
    then trim (drop_chars 7 value)
    else trim value

abbrev secret_of : Option String → Option String
secret_of none = none
secret_of (some s) = if is_secret s then some s else none

abbrev token_of : Option String → Option String
token_of none = none
token_of (some value) = if is_empty value then none else some (bearer_token value)

-- The first of the three headers that has a secret.
unfoldable pub presented_secret : Headers → Option String
unfolding strip_prefix trim drop_chars to_lower
presented_secret headers = or_option (secret_of (trimmed (lookup "x-molenkopf-token" headers))) (
    or_option (secret_of (token_of (lookup "authorization" headers)))
      (secret_of (trimmed (lookup "x-api-key" headers))))

abbrev drop_secret : String → (Option String → Option String) → Headers → Headers
drop_secret name token headers =
    if is_some (secret_of (token (lookup name headers))) then erase name headers else headers

-- `stripMolenkopfAuthHeaders`
unfoldable pub strip_molenkopf_auth_headers : Headers → Headers
unfolding strip_prefix trim drop_chars to_lower
strip_molenkopf_auth_headers headers =
    drop_secret "x-api-key" trimmed
      (drop_secret "authorization" token_of (erase "x-molenkopf-token" headers))

module _ (sha256 hash_secret : String → String) where
  abbrev key_label : ApiKey → String
  key_label key = elim key.agent_label [
    | none ↦ String.◌++◌ "key:" key.id
    | some label ↦
        if is_empty label
        then String.◌++◌ "key:" key.id
        else String.◌++◌ "key:"
            (String.◌++◌ key.id (String.◌++◌ " agent:" (safe_subject_id sha256 label)))
  ]

  abbrev pub owner_team_ids : Option User → ApiKey → List String
  owner_team_ids none key = []
  owner_team_ids (some owner) key = scoped_identity_team_ids owner.team_ids key.team_id

  unfoldable pub key_client : IdentityData → Headers → ApiKey → ClientIdentity
  unfolding agent_id_from_headers client_id_for_user
  key_client d headers key =
      let owner = lookup key.owner_user_id d.users in
      let team_ids = owner_team_ids owner key in
      record {
        id = client_id_for_user key.owner_user_id;
        label = key_label key;
        source = api_key;
        user_id = some key.owner_user_id;
        agent_id = agent_id_from_headers headers;
        key_agent_label = key.agent_label;
        team_ids = some team_ids;
        key_id = some key.id;
        project = key.project;
        allowed_provider_ids = some (effective_provider_allowlist d owner team_ids key.scopes);
      }

  abbrev without_key : Headers → Bool → ResolvedIdentity
  without_key headers presented = record {
    client = derive_client_identity sha256 headers;
    presented_key = presented;
    key_ok = false;
  }

  abbrev with_secret : IdentityData → Headers → String → ResolvedIdentity
  with_secret d headers secret = elim (authenticate_key hash_secret d (some secret)) [
    | none ↦ without_key headers true
    | some key ↦ record { client = key_client d headers key; presented_key = true; key_ok = true }
  ]

  unfoldable pub resolve_client_identity : Option IdentityData → Headers → ResolvedIdentity
  unfolding key_client presented_secret
  resolve_client_identity identity headers = elim (presented_secret headers) [
    | none ↦ without_key headers false
    | some secret ↦ elim identity [
      | none ↦ without_key headers true
      | some d ↦ with_secret d headers secret
    ]
  ]
