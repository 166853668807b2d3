-- ===== src/Forwarding/Laws.antt =====
-- No credential of the client and no hop-by-hop header reaches a provider that has no claim to it.
use molenkopf.Base.{
  ◌⊎◌, inl, inr, ◌≢◌, or_else, String, ◌≡◌, refl, sym, ap, ◌∙◌, Bool, true, false, ◌&&◌, not,
  Option, none, some, [], ◌∷◌, arith, ◌==◌, eq_iff, if◌then◌else◌, Bool-cases, includes, lookup,
  insert, lookup-insert, is_empty,
}
use molenkopf.Client.{Headers}
use molenkopf.Runtime.{
  ProviderKind, api, on_host, cli, ProviderConfig, AuthScheme, bearer, x_api_key, no_auth,
}
use molenkopf.Forwarding.{
  is_set, is_api, is_no_auth, forwards_client_auth, provider_auth, has_provider_credential_ref,
  provider_credential, set_by_scheme, set_provider_credential, is_dropped, keeps_back, passes,
  keep_rows, build_forward_headers,
}

lookup-keep_rows :
    (p : String → Bool) (name : String) (headers : Headers)
    → lookup name (keep_rows p headers) ≡ (if p name then lookup name headers else none)
lookup-keep_rows p name [] = ground arith
lookup-keep_rows p name ((n, v) ∷ rows) =
    ground (arith, lookup-keep_rows p name rows, eq_iff n name, eq_iff name n)

insert-other :
    (k name v : String) (headers : Headers)
    → (k == name) ≡ false
    → lookup name (insert k v headers) ≡ lookup name headers
insert-other k name v headers h = ground (arith, lookup-insert k name v headers)

insert-cong :
    (k name v : String) (h h' : Headers)
    → lookup name h ≡ lookup name h'
    → lookup name (insert k v h) ≡ lookup name (insert k v h')
insert-cong k name v h h' e = ground (arith, lookup-insert k name v h, lookup-insert k name v h')

-- The provider's credential goes to one of the two headers for credentials, whatever is there.
set_by_scheme-other :
    (scheme : Option AuthScheme) (c name : String) (headers : Headers)
    → includes provider_auth name ≡ false
    → lookup name (set_by_scheme scheme c headers) ≡ lookup name headers
unfolding set_by_scheme
set_by_scheme-other (some no_auth) c name headers h = refl
set_by_scheme-other (some x_api_key) c name headers h =
    insert-other "x-api-key" name c headers (ground arith)
set_by_scheme-other (some bearer) c name headers h =
    insert-other "authorization" name _ headers (ground arith)
set_by_scheme-other none c name headers h =
    insert-other "authorization" name _ headers (ground arith)

set_by_scheme-cong :
    (scheme : Option AuthScheme) (c name : String) (h h' : Headers)
    → lookup name h ≡ lookup name h'
    → lookup name (set_by_scheme scheme c h) ≡ lookup name (set_by_scheme scheme c h')
unfolding set_by_scheme
set_by_scheme-cong (some no_auth) c name h h' e = e
set_by_scheme-cong (some x_api_key) c name h h' e = insert-cong "x-api-key" name c h h' e
set_by_scheme-cong (some bearer) c name h h' e = insert-cong "authorization" name _ h h' e
set_by_scheme-cong none c name h h' e = insert-cong "authorization" name _ h h' e

set_provider_credential-other :
    (scheme : Option AuthScheme) (c : Option String) (name : String) (headers : Headers)
    → includes provider_auth name ≡ false
    → lookup name (set_provider_credential scheme c headers) ≡ lookup name headers
unfolding set_provider_credential
set_provider_credential-other scheme none name headers h = refl
set_provider_credential-other scheme (some c) name headers h =
    ground (arith, set_by_scheme-other scheme c name headers h, Bool-cases (is_empty c))

set_provider_credential-cong :
    (scheme : Option AuthScheme) (c : Option String) (name : String) (h h' : Headers)
    → lookup name h ≡ lookup name h'
    → lookup name (set_provider_credential scheme c h)
      ≡ lookup name (set_provider_credential scheme c h')
unfolding set_provider_credential
set_provider_credential-cong scheme none name h h' e = e
set_provider_credential-cong scheme (some c) name h h' e =
    ground (arith, set_by_scheme-cong scheme c name h h' e, Bool-cases (is_empty c))

passes-auth :
    (dropped : Bool) {auth kept : Bool}
    → auth ≡ true
    → kept ≡ true
    → (not dropped && not (auth && kept)) ≡ false
passes-auth dropped e f = ground arith

passes-plain :
    (dropped kept : Bool) {auth : Bool}
    → auth ≡ false
    → (not dropped && not (auth && kept)) ≡ not dropped
passes-plain dropped kept e = ground arith

turned : (b : Bool) (o : Option String) → (if not b then o else none) ≡ (if b then none else o)
turned true o = refl
turned false o = refl

held_back :
    (p : String → Bool) (name : String) (headers : Headers)
    → p name ≡ false
    → lookup name (keep_rows p headers) ≡ none
held_back p name headers e =
    lookup-keep_rows p name headers ∙ ap (λ (b : Bool). if b then lookup name headers else none) e

-- A text that is there and not empty.
abbrev IsGiven : Option String → Type 0
IsGiven value = (s : String) × (value ≡ some s) × (is_empty s ≡ false)

-- The provider's configuration holds a credential, names a variable of the environment, or refers to
-- a credential other than `none`.
abbrev HasOwnCredential : ProviderConfig → Type 0
HasOwnCredential p =
    IsGiven p.credential_value
    ⊎ (IsGiven p.credential_env
        ⊎ ((s : String) × (p.credential_ref ≡ some s)
            × (is_empty s ≡ false)
            × ((s == "none") ≡ false)))

-- Some part of what makes a provider the default one, an API without authentication, is missing.
abbrev IsNotPlainDefault : ProviderConfig → Type 0
IsNotPlainDefault p =
    ((p.id == "default") ≡ false) ⊎ ((p.kind ≢ api) ⊎ (p.auth_scheme ≢ some no_auth))

-- No credential of the client is meant for the provider: it has its own, or it neither is allowed to
-- get the client's nor is the default API without authentication.
abbrev pub IsKeptFrom : ProviderConfig → Type 0
IsKeptFrom p =
    HasOwnCredential p
    ⊎ ((or_else p.allow_client_credential_forwarding false ≡ false) × IsNotPlainDefault p)

is_set-given : (value : Option String) → IsGiven value → is_set value ≡ true
is_set-given value (s, e, h) = rw (e, h) refl

HasOwnCredential-has_ref :
    (p : ProviderConfig) → HasOwnCredential p → has_provider_credential_ref p ≡ true
unfolding has_provider_credential_ref
HasOwnCredential-has_ref p (inl given) = ground (arith, is_set-given p.credential_value given)
HasOwnCredential-has_ref p (inr (inl given)) = ground (arith, is_set-given p.credential_env given)
HasOwnCredential-has_ref p (inr (inr (s, e, named, other))) = ground arith

is_api-not : (kind : ProviderKind) → kind ≢ api → is_api kind ≡ false
is_api-not api h = absurd (h refl)
is_api-not on_host h = refl
is_api-not cli h = refl

is_no_auth-not : (scheme : Option AuthScheme) → scheme ≢ some no_auth → is_no_auth scheme ≡ false
is_no_auth-not none h = refl
is_no_auth-not (some no_auth) h = absurd (h refl)
is_no_auth-not (some bearer) h = refl
is_no_auth-not (some x_api_key) h = refl

IsNotPlainDefault-forwards :
    (p : ProviderConfig)
    → or_else p.allow_client_credential_forwarding false ≡ false
    → IsNotPlainDefault p
    → forwards_client_auth p ≡ false
unfolding forwards_client_auth
IsNotPlainDefault-forwards p off (inl other) = rw (off, other) refl
IsNotPlainDefault-forwards p off (inr (inl kind)) = ground (arith, is_api-not p.kind kind)
IsNotPlainDefault-forwards p off (inr (inr scheme)) =
    ground (arith, is_no_auth-not p.auth_scheme scheme)

IsKeptFrom-keeps_back : (p : ProviderConfig) → IsKeptFrom p → keeps_back p ≡ true
IsKeptFrom-keeps_back p (inl own) = ground (arith, HasOwnCredential-has_ref p own)
IsKeptFrom-keeps_back p (inr (off, other)) = ground (arith, IsNotPlainDefault-forwards p off other)

-- Where a provider's configuration holds a credential, names a variable of the environment, or refers
-- to a credential other than `none`, or where the provider is neither allowed to get the client's
-- credential nor the default one, an API without authentication, what it gets as `authorization` and
-- as `x-api-key` does not depend on what the client sent.
pub build_forward_headers-keeps_back :
    (env : String → Option String) (p : ProviderConfig) (name : String) (h h' : Headers)
    → IsKeptFrom p
    → (name ≡ "authorization") ⊎ (name ≡ "x-api-key")
    → lookup name (build_forward_headers env p h) ≡ lookup name (build_forward_headers env p h')
unfolding build_forward_headers
build_forward_headers-keeps_back env p name h h' kept_from is_auth =
    let kept = IsKeptFrom-keeps_back p kept_from in
    let auth : includes provider_auth name ≡ true = elim is_auth [
      | inl e ↦ rw e refl
      | inr e ↦ rw e refl
    ] in
    set_provider_credential-cong p.auth_scheme
      (if has_provider_credential_ref p then provider_credential env p else none) name
      (keep_rows (passes p) h) (keep_rows (passes p) h')
      (held_back (passes p) name h (passes-auth (is_dropped name) auth kept)
        ∙ sym (held_back (passes p) name h' (passes-auth (is_dropped name) auth kept)))

-- Every other header is sent as the client sent it, unless it is one of those that are dropped, which
-- no provider gets.
pub build_forward_headers-other :
    (env : String → Option String) (p : ProviderConfig) (name : String) (h : Headers)
    → includes provider_auth name ≡ false
    → lookup name (build_forward_headers env p h)
      ≡ (if is_dropped name then none else lookup name h)
unfolding build_forward_headers
build_forward_headers-other env p name h other =
    set_provider_credential-other p.auth_scheme
      (if has_provider_credential_ref p then provider_credential env p else none) name
      (keep_rows (passes p) h) other
    ∙ lookup-keep_rows (passes p) name h
    ∙ ap (λ (b : Bool). if b then lookup name h else none)
        (passes-plain (is_dropped name) (keeps_back p) other)
    ∙ turned (is_dropped name) (lookup name h)
