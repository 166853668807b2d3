-- ===== src/Routing/Clients/Laws.antt =====
-- What a client is resolved to, and that no secret is passed on.
use molenkopf.Base.{
  String, ◌≡◌, refl, ◌∙◌, inl, inr, true, false, ◌||◌, Option, none, some, arith, ◌==◌, eq_refl,
  Bool-cases, Option-cases, is_some, lookup, erase, lookup-erase,
}
use molenkopf.Base.{◌&&◌, any}
use molenkopf.Identity.{ApiKey, IdentityData, User, Allowlist, is_admin}
use molenkopf.Identity.TeamScope.{scoped_identity_team_ids}
use molenkopf.Routing.Access.{permits, effective_provider_allowlist}
use molenkopf.Routing.Access.Laws.{
  team_permits, scopes_permit, effective_provider_allowlist-permits,
}
use molenkopf.Identity.ApiKeys.{authenticate_key}
use molenkopf.Identity.ApiKeys.Laws.{IsAuthentic, authenticate_key-IsAuthentic}
use molenkopf.Client.{api_key, agent_id_from_headers, ClientIdentity, Headers}
use molenkopf.Routing.Clients.{
  trimmed, token_of, secret_of, drop_secret, presented_secret, strip_molenkopf_auth_headers,
  key_client, resolve_client_identity, with_secret,
}

drop_secret-none :
    (name : String) (token : Option String → Option String) (headers : Headers)
    → token none ≡ none
    → secret_of (token (lookup name (drop_secret name token headers))) ≡ none
drop_secret-none name token headers unset =
    elim (Option-cases (secret_of (token (lookup name headers)))) [
      | inl e ↦ rw e e
      | inr (s, e) ↦ rw (e, lookup-erase name name headers, eq_refl name, unset) refl
    ]

drop_secret-other :
    (name other : String) (token : Option String → Option String) (headers : Headers)
    → (name == other) ≡ false
    → lookup other (drop_secret name token headers) ≡ lookup other headers
drop_secret-other name other token headers ne =
    elim (Bool-cases (is_some (secret_of (token (lookup name headers))))) [
      | inl e ↦ rw (e, lookup-erase name other headers, ne) refl
      | inr e ↦ rw e refl
    ]

-- The headers that are passed on to a provider present no secret, and every header but the three
-- that can carry one is as it was.
pub strip_molenkopf_auth_headers-strips :
    (headers : Headers)
    → (presented_secret (strip_molenkopf_auth_headers headers) ≡ none)
      × ((name : String)
          → (("x-molenkopf-token" == name) || ("authorization" == name) || ("x-api-key" == name))
            ≡ false
          → lookup name (strip_molenkopf_auth_headers headers) ≡ lookup name headers)
unfolding strip_molenkopf_auth_headers presented_secret
strip_molenkopf_auth_headers-strips headers =
    let h0 = erase "x-molenkopf-token" headers in
    let h1 = drop_secret "authorization" token_of h0 in
    let h2 = drop_secret "x-api-key" trimmed h1 in
    (
      rw
          (
            drop_secret-other "x-api-key" "x-molenkopf-token" trimmed h1 refl,
            drop_secret-other "authorization" "x-molenkopf-token" token_of h0 refl,
            lookup-erase "x-molenkopf-token" "x-molenkopf-token" headers,
            drop_secret-other "x-api-key" "authorization" trimmed h1 refl,
            drop_secret-none "authorization" token_of h0 refl,
            drop_secret-none "x-api-key" trimmed h1 refl,
          )
          refl,
      λ name other.
          drop_secret-other "x-api-key" name trimmed h1 (ground arith)
          ∙ drop_secret-other "authorization" name token_of h0 (ground arith)
          ∙ ground (arith, lookup-erase "x-molenkopf-token" name headers),
    )

-- The client is the key's owner, with the key's id, project and agent, it counts for the owner's
-- teams as the key scopes them, and it may use a provider exactly when the owner is an administrator
-- or one of these teams permits it, and the key's scopes, where it has them, name it.
pub record IsClientOf (d : IdentityData) (headers : Headers) (key : ApiKey) (owner : User)
    (client : ClientIdentity) : Type 0 where
  pub from_key : client.source ≡ api_key
  pub of_user : client.user_id ≡ some key.owner_user_id
  pub of_key : client.key_id ≡ some key.id
  pub project : client.project ≡ key.project
  pub agent : client.agent_id ≡ agent_id_from_headers headers
  pub key_agent : client.key_agent_label ≡ key.agent_label
  pub teams : client.team_ids ≡ some (scoped_identity_team_ids owner.team_ids key.team_id)
  pub providers :
      (allowed : Allowlist) × (client.allowed_provider_ids ≡ some allowed)
      × ((p : String)
          → permits allowed p ≡ (
              (is_admin owner.role
                || any (team_permits d p) (scoped_identity_team_ids owner.team_ids key.team_id))
              && scopes_permit key.scopes p))

-- What an accepted key gives: the secret that the request presents authenticates as the key, and the
-- client is the key's.
pub record IsResolved (hash_secret : String → String) (d : IdentityData) (headers : Headers)
    (client : ClientIdentity) : Type 0 where
  pub secret : String
  pub key : ApiKey
  pub owner : User
  pub presented : presented_secret headers ≡ some secret
  pub authentic : IsAuthentic hash_secret d secret key
  pub owned : lookup key.owner_user_id d.users ≡ some owner
  pub stands_for : IsClientOf d headers key owner client

key_client-IsClientOf :
    (sha256 hash_secret : String → String) (d : IdentityData) (headers : Headers) (key : ApiKey)
    (u : User)
    → lookup key.owner_user_id d.users ≡ some u
    → IsClientOf d headers key u (key_client sha256 hash_secret d headers key)
unfolding key_client
key_client-IsClientOf sha256 hash_secret d headers key u e = rw e (record {
  from_key = refl;
  of_user = refl;
  of_key = refl;
  project = refl;
  agent = refl;
  key_agent = refl;
  teams = refl;
  providers = (
    effective_provider_allowlist d (some u) (scoped_identity_team_ids u.team_ids key.team_id)
        key.scopes,
    refl,
    effective_provider_allowlist-permits d (some u)
        (scoped_identity_team_ids u.team_ids key.team_id) key.scopes,
  );
})

with_secret-IsResolved :
    (sha256 hash_secret : String → String) (d : IdentityData) (headers : Headers) (secret : String)
    → presented_secret headers ≡ some secret
    → (with_secret sha256 hash_secret d headers secret).key_ok ≡ true
    → IsResolved hash_secret d headers (with_secret sha256 hash_secret d headers secret).client
with_secret-IsResolved sha256 hash_secret d headers secret e good =
    elim (Option-cases (authenticate_key hash_secret d (some secret))) [
      | inl n ↦ absurd (ground arith)
      | inr (key, k) ↦
          let authentic = authenticate_key-IsAuthentic hash_secret d secret key k in
          let (u, known, _, _) = authentic.owner in
          record {
            secret = secret;
            key = key;
            owner = u;
            presented = e;
            authentic = authentic;
            owned = known;
            stands_for =
                rw (k, with_secret)
                  (key_client-IsClientOf sha256 hash_secret d headers key u known);
          }
    ]

-- A request counts as made with a key only where it presents a secret that authenticates as a stored
-- key. The client then is the key's owner, with the key's id, project and agent; it counts for the
-- owner's teams as the key scopes them; and it may use a provider exactly when the owner is an
-- administrator or one of these teams permits it, and the key's scopes, where it has them, name it.
pub resolve_client_identity-IsResolved :
    (sha256 hash_secret : String → String) (d : IdentityData) (headers : Headers)
    → (resolve_client_identity sha256 hash_secret (some d) headers).key_ok ≡ true
    → IsResolved hash_secret d headers
        (resolve_client_identity sha256 hash_secret (some d) headers).client
unfolding resolve_client_identity
resolve_client_identity-IsResolved sha256 hash_secret d headers good =
    elim (Option-cases (presented_secret headers)) [
      | inl n ↦ absurd (ground arith)
      | inr (secret, e) ↦
          rw (e, resolve_client_identity)
            (with_secret-IsResolved sha256 hash_secret d headers secret e
              (rw (e, resolve_client_identity) at good))
    ]
