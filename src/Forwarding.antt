-- ===== src/Forwarding.antt =====
-- The headers that are sent to a provider, packages/proxy/src/http/header-utils.ts. Header names are
-- in lower case, as `Headers` gives them; the environment is an argument.
pub mod Laws
pub mod Tests
use molenkopf.Base.{
  ℕ, zero, suc, ◌+◌, ◌-◌, ◌*◌, ◌/◌, ◌≤◌, ◌<◌, String, ◌≡◌, refl, sym, ap, ◌∙◌, ◌≢◌, ◌↔◌, ◌⊎◌, inl,
  inr, Bool, true, false, ◌&&◌, ◌||◌, not, Option, none, some, List, [], ◌∷◌, ◌++◌, map, arith,
  ◌==◌, eq_iff, eq_refl, ltb, leb, nat_eq, if◌then◌else◌, Bool-cases, Option-cases, or_else,
  or_option, is_some, ◌>>=◌, Result, ok, fail, length, take, drop, filter, find, any, all, All,
  length-append, includes, includes-filter, includes-append, other_than, unique, includes-unique,
  IsUnique, filter-IsUnique, unique-IsUnique, all_mono, all-filter, all-of_includes,
  all-filter_self, all-const, filter-all, Dict, lookup, insert, erase, values, lookup-insert,
  lookup-erase, has, has-erase, all_rows, erase_all, map_values, is_empty, is_space, trim, size,
  every_char, is_digit, is_letter, is_id_char, is_slug,
}
use Prim.Native.String
use molenkopf.Base.{strip_prefix, to_lower}
use molenkopf.Client.{Headers}
use molenkopf.Runtime.{
  ProviderConfig, ProviderKind, api, on_host, AuthScheme, bearer, x_api_key, no_auth,
}

abbrev pub hop_by_hop : List String
hop_by_hop =
    "connection" ∷ "keep-alive" ∷ "proxy-authenticate" ∷ "proxy-authorization" ∷ "te" ∷ "trailer"
    ∷ "transfer-encoding" ∷ "upgrade" ∷ "host" ∷ []

abbrev pub sensitive : List String
sensitive = "authorization" ∷ "cookie" ∷ "set-cookie" ∷ "x-api-key" ∷ []

abbrev pub provider_auth : List String
provider_auth = "authorization" ∷ "x-api-key" ∷ []

abbrev pub blocked_request : List String
blocked_request =
    "content-length" ∷ "set-cookie" ∷ "forwarded" ∷ "proxy-connection" ∷ "x-forwarded-for"
    ∷ "x-forwarded-host" ∷ "x-forwarded-proto" ∷ []

-- A text that is there and not empty.
abbrev pub is_set : Option String → Bool
is_set none = false
is_set (some s) = not (is_empty s)

abbrev is_reference : Option String → Bool
is_reference none = false
is_reference (some s) = not (is_empty s) && not (s == "none")

unfoldable pub has_provider_credential_ref : ProviderConfig → Bool
has_provider_credential_ref p =
    is_set p.credential_value || is_set p.credential_env || is_reference p.credential_ref

abbrev pub is_no_auth : Option AuthScheme → Bool
is_no_auth (some no_auth) = true
is_no_auth _ = false

abbrev is_on_host : ProviderKind → Bool
is_on_host on_host = true
is_on_host _ = false

abbrev is_api : ProviderKind → Bool
is_api api = true
is_api _ = false

unfoldable pub strips_client_auth : ProviderConfig → Bool
strips_client_auth p = not (p.id == "default") && (is_no_auth p.auth_scheme || is_on_host p.kind)

unfoldable pub forwards_client_auth : ProviderConfig → Bool
unfolding has_provider_credential_ref
forwards_client_auth p =
    or_else p.allow_client_credential_forwarding false
    || (p.id == "default"
        && is_api p.kind
        && is_no_auth p.auth_scheme
        && not (has_provider_credential_ref p))

abbrev from_env : (String → Option String) → Option String → Option String
from_env env none = none
from_env env (some name) = if is_empty name then none else env name

unfoldable pub provider_credential : (String → Option String) → ProviderConfig → Option String
provider_credential env p = or_option p.credential_value (from_env env p.credential_env)

unfoldable pub missing_provider_credential : (String → Option String) → ProviderConfig → Bool
unfolding has_provider_credential_ref provider_credential
missing_provider_credential env p =
    has_provider_credential_ref p
    && not (is_no_auth p.auth_scheme)
    && not (is_set (provider_credential env p))

abbrev with_bearer : String → String
with_bearer credential =
    if is_some (strip_prefix "bearer " (to_lower credential))
    then credential
    else String.◌++◌ "Bearer " credential

set_by_scheme : Option AuthScheme → String → Headers → Headers
unfolding strip_prefix to_lower
set_by_scheme (some no_auth) credential headers = headers
set_by_scheme (some x_api_key) credential headers = insert "x-api-key" credential headers
set_by_scheme (some bearer) credential headers =
    insert "authorization" (with_bearer credential) headers
set_by_scheme none credential headers = insert "authorization" (with_bearer credential) headers

-- `setProviderCredential`, where the credential is there and not empty.
unfoldable pub set_provider_credential : Option AuthScheme → Option String → Headers → Headers
unfolding set_by_scheme
set_provider_credential scheme none headers = headers
set_provider_credential scheme (some credential) headers =
    if is_empty credential then headers else set_by_scheme scheme credential headers

-- A header that no provider gets from the client.
abbrev pub is_dropped : String → Bool
is_dropped name =
    includes blocked_request name
    || includes hop_by_hop name
    || is_some (strip_prefix "x-molenkopf-" name)
    || name == "cookie"

-- The client's own credential is kept back.
abbrev pub keeps_back : ProviderConfig → Bool
keeps_back p =
    has_provider_credential_ref p
    || (strips_client_auth p && not (or_else p.allow_client_credential_forwarding false))
    || not (forwards_client_auth p)

abbrev pub passes : ProviderConfig → String → Bool
passes p name = not (is_dropped name) && not (includes provider_auth name && keeps_back p)

abbrev pub keep_rows : (String → Bool) → Headers → Headers
keep_rows p [] = []
keep_rows p ((name, value) ∷ rows) =
    if p name then (name, value) ∷ keep_rows p rows else keep_rows p rows

unfoldable pub build_forward_headers : (String → Option String) → ProviderConfig → Headers → Headers
unfolding set_provider_credential provider_credential has_provider_credential_ref strips_client_auth
    forwards_client_auth strip_prefix
build_forward_headers env p headers =
    set_provider_credential p.auth_scheme
      (if has_provider_credential_ref p then provider_credential env p else none)
      (keep_rows (passes p) headers)

unfoldable pub sanitize_headers_for_audit : Headers → Headers
sanitize_headers_for_audit headers = keep_rows (λ name. not (includes sensitive name)) headers
