-- ===== src/Scope.antt =====
-- Who may read and manage what, packages/proxy/src/http/auth-state.ts and local-api-scope.ts. The
-- session that a cookie carries, once its signature is checked, is an argument.
pub mod Laws
pub mod Tests
use molenkopf.Base.{
  ℕ, zero, suc, ◌+◌, ◌-◌, ◌*◌, ◌/◌, ◌≤◌, ◌<◌, String, ◌≡◌, refl, sym, ap, ◌∙◌, ◌≢◌, ◌↔◌, ◌⊎◌, inl,
  inr, Bool, true, false, ◌&&◌, ◌||◌, not, Option, none, some, List, [], ◌∷◌, ◌++◌, map, arith,
  ◌==◌, eq_iff, eq_refl, ltb, leb, nat_eq, if◌then◌else◌, Bool-cases, Option-cases, or_else,
  or_option, is_some, ◌>>=◌, Result, ok, fail, length, take, drop, filter, find, any, all, All,
  length-append, includes, includes-filter, includes-append, other_than, unique, includes-unique,
  IsUnique, filter-IsUnique, unique-IsUnique, all_mono, all-filter, all-of_includes,
  all-filter_self, all-const, filter-all, Dict, lookup, insert, erase, values, lookup-insert,
  lookup-erase, has, has-erase, all_rows, erase_all, map_values, is_empty, is_space, trim, size,
  every_char, is_digit, is_letter, is_id_char, is_slug,
}
use Prim.Native.String
use molenkopf.Identity.{
  Role, User, Team, ApiKey, IdentityData, every, only, flag, is_admin, password_set,
}
use molenkopf.Identity.TeamScope.{non_default_team_ids}
use molenkopf.Client.{client_id_for_user}
use molenkopf.Runtime.{AuditClient, AuditManifest, RuntimeState}
use molenkopf.Routing.Access.{permits}

abbrev pub users_of : RuntimeState → Dict User
users_of s = elim s.identity [ none ↦ [] | some d ↦ d.users ]

abbrev pub teams_of : RuntimeState → Dict Team
teams_of s = elim s.identity [ none ↦ [] | some d ↦ d.teams ]

abbrev pub keys_of : RuntimeState → Dict ApiKey
keys_of s = elim s.identity [ none ↦ [] | some d ↦ d.keys ]

-- Some user has a password.
unfoldable pub auth_required : RuntimeState → Bool
auth_required s = any (λ u. password_set u.password) (values (users_of s))

pub record SessionPayload : Type 0 where
  pub user_id : String
  pub session_version : ℕ

abbrev pub session_user : User → SessionPayload → Option User
session_user u session =
    if not (nat_eq (or_else u.session_version 0) session.session_version) || flag u.disabled
    then none
    else some u

unfoldable pub current_user : RuntimeState → Option SessionPayload → Option User
current_user s none = none
current_user s (some session) = elim (lookup session.user_id (users_of s)) [
  | none ↦ none
  | some u ↦ session_user u session
]

unfoldable pub can_manage : Option User → Bool
can_manage none = false
can_manage (some u) = is_admin u.role

abbrev team_allows : RuntimeState → String → String → Bool
team_allows s provider_id team_id = elim (lookup team_id (teams_of s)) [
  | none ↦ false
  | some team ↦ permits team.allowed_providers provider_id
]

unfoldable pub provider_allowed : RuntimeState → Option User → String → Bool
provider_allowed s none provider_id = true
provider_allowed s (some u) provider_id =
    is_admin u.role || any (team_allows s provider_id) u.team_ids

unfoldable pub can_read_all_local : RuntimeState → Option User → Bool
unfolding auth_required can_manage
can_read_all_local s user = not (auth_required s) || can_manage user

abbrev pub managed_by : String → List Team → List String
managed_by id [] = []
managed_by id (t ∷ ts) =
    if includes t.manager_ids id then t.id ∷ managed_by id ts else managed_by id ts

-- The teams of the user but for the default one, and those that the user manages.
unfoldable pub readable_team_ids : RuntimeState → User → List String
unfolding non_default_team_ids
readable_team_ids s u = non_default_team_ids u.team_ids ++ managed_by u.id (values (teams_of s))

abbrev pub ids_owned_by : String → List ApiKey → List String
ids_owned_by id [] = []
ids_owned_by id (k ∷ ks) =
    if k.owner_user_id == id then k.id ∷ ids_owned_by id ks else ids_owned_by id ks

unfoldable pub owned_key_ids : RuntimeState → String → List String
owned_key_ids s user_id = ids_owned_by user_id (values (keys_of s))

abbrev pub is_text : Option String → String → Bool
is_text none s = false
is_text (some t) s = t == s

abbrev pub has_key : List String → Option String → Bool
has_key keys none = false
has_key keys (some k) = not (is_empty k) && includes keys k

abbrev pub client_allowed : AuditClient → User → List String → List String → Bool
client_allowed client u teams keys =
    is_text client.user_id u.id
    || client.id == client_id_for_user u.id
    || has_key keys client.key_id
    || any (includes teams) (or_else client.team_ids [])

unfoldable pub manifest_allowed : AuditManifest → User → List String → List String → Bool
unfolding client_id_for_user
manifest_allowed m u teams keys = elim m.client [
  | none ↦ false
  | some client ↦ client_allowed client u teams keys
]

abbrev pub allowed_for : RuntimeState → Option User → AuditManifest → Bool
allowed_for s none m = false
allowed_for s (some u) m = manifest_allowed m u (readable_team_ids s u) (owned_key_ids s u.id)

-- `filterAuditForUser`
unfoldable pub filter_audit_for_user :
    RuntimeState → Option User → List AuditManifest → List AuditManifest
unfolding can_read_all_local readable_team_ids owned_key_ids manifest_allowed
filter_audit_for_user s user ms =
    if can_read_all_local s user then ms else filter (allowed_for s user) ms

abbrev own_or_keyed : RuntimeState → Option User → String → Bool
own_or_keyed s none id = false
own_or_keyed s (some u) id = id == client_id_for_user u.id || includes (owned_key_ids s u.id) id

unfoldable pub consumer_allowed : RuntimeState → Option User → String → Bool
unfolding can_read_all_local owned_key_ids client_id_for_user
consumer_allowed s user id = can_read_all_local s user || own_or_keyed s user id
