-- ===== src/Scope/Laws.antt =====
-- What a signed-in user can read of the audit.
use molenkopf.Base.{
  String, ◌≡◌, refl, ap, ◌∙◌, inl, inr, Bool, true, false, ◌&&◌, ◌||◌, not, Option, none, some,
  List, [], ◌∷◌, arith, ◌==◌, Bool-cases, Option-cases, or_else, filter, any, includes,
  includes-append, lookup, values, is_empty,
}
use molenkopf.Identity.{User, Team, ApiKey, is_admin, flag}
use molenkopf.Identity.TeamScope.{is_named, is_specific, non_default_team_ids}
use molenkopf.Identity.TeamScope.Laws.{includes-unique_team_ids, includes-non_default}
use molenkopf.Client.{client_id_for_user}
use molenkopf.Runtime.{AuditClient, AuditManifest, RuntimeState}
use molenkopf.Scope.{
  users_of, teams_of, keys_of, auth_required, SessionPayload, session_user, current_user,
  can_manage, can_read_all_local, managed_by, readable_team_ids, ids_owned_by, owned_key_ids,
  is_text, has_key, client_allowed, manifest_allowed, allowed_for, filter_audit_for_user,
}

-- The user is a member of the team, which has a name and is not the default one, or manages it.
abbrev pub reads_team : RuntimeState → User → String → Bool
reads_team s u t =
    (includes u.team_ids t && is_named t && is_specific t)
    || any (λ (row : Team). includes row.manager_ids u.id && row.id == t) (values (teams_of s))

-- The user owns the key.
abbrev pub owns_key : RuntimeState → User → String → Bool
owns_key s u k =
    any (λ (row : ApiKey). row.owner_user_id == u.id && row.id == k) (values (keys_of s))

abbrev owns_named_key : RuntimeState → User → Option String → Bool
owns_named_key s u none = false
owns_named_key s u (some k) = not (is_empty k) && owns_key s u k

-- The client is the user, used a key of the user's, or counted for a team that the user reads.
abbrev reads_client : RuntimeState → User → AuditClient → Bool
reads_client s u client =
    is_text client.user_id u.id
    || client.id == client_id_for_user u.id
    || owns_named_key s u client.key_id
    || any (reads_team s u) (or_else client.team_ids [])

abbrev pub reads : RuntimeState → User → AuditManifest → Bool
reads s u m = elim m.client [ none ↦ false | some client ↦ reads_client s u client ]

managed_by-includes :
    (id t : String) (ts : List Team)
    → includes (managed_by id ts) t ≡ any (λ row. includes row.manager_ids id && row.id == t) ts
managed_by-includes id t [] = refl
managed_by-includes id t (x ∷ xs) = elim (Bool-cases (includes x.manager_ids id)) [
  | inl e ↦ ground (arith, managed_by-includes id t xs)
  | inr e ↦ ground (arith, managed_by-includes id t xs)
]

ids_owned_by-includes :
    (id k : String) (ks : List ApiKey)
    → includes (ids_owned_by id ks) k ≡ any (λ row. row.owner_user_id == id && row.id == k) ks
ids_owned_by-includes id k [] = refl
ids_owned_by-includes id k (x ∷ xs) = elim (Bool-cases (x.owner_user_id == id)) [
  | inl e ↦ ground (arith, ids_owned_by-includes id k xs)
  | inr e ↦ ground (arith, ids_owned_by-includes id k xs)
]

readable_team_ids-includes :
    (s : RuntimeState) (u : User) (t : String)
    → includes (readable_team_ids s u) t ≡ reads_team s u t
unfolding readable_team_ids
readable_team_ids-includes s u t = ground (
  arith,
  includes-append (non_default_team_ids u.team_ids) (managed_by u.id (values (teams_of s))) t,
  managed_by-includes u.id t (values (teams_of s)),
  includes-non_default u.team_ids t,
  includes-unique_team_ids u.team_ids t,
)

owned_key_ids-includes :
    (s : RuntimeState) (u : User) (k : String) → includes (owned_key_ids s u.id) k ≡ owns_key s u k
unfolding owned_key_ids
owned_key_ids-includes s u k = ids_owned_by-includes u.id k (values (keys_of s))

module _ {ℓ} {A : Type ℓ} (p q : A → Bool) (same : (a : A) → p a ≡ q a) where
  any-cong : (xs : List A) → any p xs ≡ any q xs
  any-cong [] = refl
  any-cong (x ∷ xs) = rw (same x, any-cong xs)

  filter-cong : (xs : List A) → filter p xs ≡ filter q xs
  filter-cong [] = refl
  filter-cong (x ∷ xs) = rw (same x, filter-cong xs)

has_key-owned :
    (s : RuntimeState) (u : User) (k : Option String)
    → has_key (owned_key_ids s u.id) k ≡ owns_named_key s u k
has_key-owned s u none = refl
has_key-owned s u (some k) = ap (λ (b : Bool). not (is_empty k) && b) (owned_key_ids-includes s u k)

client_allowed-reads :
    (s : RuntimeState) (u : User) (client : AuditClient)
    → client_allowed client u (readable_team_ids s u) (owned_key_ids s u.id)
      ≡ reads_client s u client
client_allowed-reads s u client = cc (
  has_key-owned s u client.key_id,
  any-cong (includes (readable_team_ids s u)) (reads_team s u) (readable_team_ids-includes s u)
      (or_else client.team_ids []),
)

by_client :
    (s : RuntimeState) (u : User) (client : Option AuditClient)
    → (elim client [
      | none ↦ false
      | some c ↦ client_allowed c u (readable_team_ids s u) (owned_key_ids s u.id)
    ])
      ≡ (elim client [ none ↦ false | some c ↦ reads_client s u c ])
by_client s u none = refl
by_client s u (some c) = client_allowed-reads s u c

allowed_for-reads :
    (s : RuntimeState) (u : User) (m : AuditManifest) → allowed_for s (some u) m ≡ reads s u m
unfolding manifest_allowed
allowed_for-reads s u m = by_client s u m.client

-- Where signing in is required, a user who is no administrator gets of the audit, in order, the
-- requests that the user made, that were made with a key of the user's, or that counted for a team
-- that the user manages, or that the user is a member of and that is not the default team.
pub filter_audit_for_user-reads :
    (s : RuntimeState) (u : User) (ms : List AuditManifest)
    → auth_required s ≡ true
    → is_admin u.role ≡ false
    → filter_audit_for_user s (some u) ms ≡ filter (reads s u) ms
unfolding filter_audit_for_user can_read_all_local can_manage
filter_audit_for_user-reads s u ms required plain =
    rw (required, plain)
      (filter-cong (allowed_for s (some u)) (reads s u) (allowed_for-reads s u) ms)

-- A user whom a session signs in is there, is not disabled, and has the session's version.
pub record IsCurrent (s : RuntimeState) (session : SessionPayload) (u : User) : Type 0 where
  pub stored : lookup session.user_id (users_of s) ≡ some u
  pub active : flag u.disabled ≡ false
  pub same_version : or_else u.session_version 0 ≡ session.session_version

-- A session signs in only the stored user whose id it carries, if that user is not disabled and has
-- the session version that the session carries.
pub current_user-IsCurrent :
    (s : RuntimeState) (session : SessionPayload) (u : User)
    → current_user s (some session) ≡ some u
    → IsCurrent s session u
unfolding current_user
current_user-IsCurrent s session u e = elim (Option-cases (lookup session.user_id (users_of s))) [
  | inl n ↦ absurd (ground arith)
  | inr (v, n) ↦
      let found : session_user v session ≡ some u = ground arith in
      let here : v ≡ u = ground arith in
      record { stored = n ∙ ap some here; active = ground arith; same_version = ground arith }
]
