-- ===== src/Identity/Tests.antt =====
-- The theorems on the identity data at a small organization: two users, the default team and another,
-- and a key of the second team.
use molenkopf.Base.{
  String, ◌≡◌, refl, true, false, none, some, List, [], ◌∷◌, ◌==◌, if◌then◌else◌, is_some, ok,
}
use molenkopf.Identity.{
  Role, admin, member, User, Team, ApiKey, IdentityData, Allowlist, every, only,
  identity_schema_version,
}
use molenkopf.Identity.TeamScope.{default_team_id}
use molenkopf.Identity.Validation.{validate_identity_data}
use molenkopf.Identity.ApiKeys.{equal_hex, key_usable, authenticate_key, revoke_key}
use molenkopf.Identity.ApiKeys.Laws.{
  IsAuthentic, authenticate_key-IsAuthentic, authenticate_key-is_some, revoke_key-revokes,
}
use molenkopf.Identity.Store.{
  save, Store, with_user, with_team, put_user, remove_user, put_team, remove_team,
  persisted_identity,
}
use molenkopf.Identity.Store.References.{IsConsistent, persisted_identity-IsConsistent}
use molenkopf.Identity.Store.Inserts.{with_user-IsConsistent, with_team-IsConsistent}
use molenkopf.Identity.Store.Updates.{IsSettled, updates-IsSettled}
use molenkopf.Identity.Store.Removals.{IsSynced, IsUserRemoved, remove_user-removes}

abbrev pub a_user : String → Role → List String → User
a_user id role team_ids = record {
  id = id;
  display_name = id;
  role = role;
  password = none;
  login_disabled = none;
  team_ids = team_ids;
  key_permissions = none;
  budget = none;
  disabled = none;
  session_version = none;
  created_at = 0;
  created_by = none;
}

abbrev pub a_team : String → Allowlist → List String → Team
a_team id allowed managers = record {
  id = id;
  name = id;
  allowed_providers = allowed;
  manager_ids = managers;
  budget = none;
  created_at = 0;
}

abbrev pub good_hash : String
good_hash = "aaaaaaaaaaaaaaaaaaaaaaaaaaaaaaaaaaaaaaaaaaaaaaaaaaaaaaaaaaaaaaaa"

-- A hash that tells the secret `mk_ada` from the others.
abbrev pub test_hash : String → String
test_hash secret =
    if secret == "mk_ada"
    then good_hash
    else "bbbbbbbbbbbbbbbbbbbbbbbbbbbbbbbbbbbbbbbbbbbbbbbbbbbbbbbbbbbbbbbb"

abbrev pub ada_key : ApiKey
ada_key = record {
  id = "k1";
  hash = good_hash;
  prefix = "mk_abc";
  owner_user_id = "ada";
  team_id = some "lab";
  agent_label = some "coder";
  project = some "thesis";
  scopes = some ("openai" ∷ []);
  budget = none;
  disabled = none;
  created_at = 0;
  last_used_at = none;
}

abbrev pub bob_key : ApiKey
bob_key = record ada_key {
  id = "k2";
  hash = test_hash "mk_bob";
  owner_user_id = "bob";
  team_id = none;
  scopes = none;
}

abbrev pub test_data : IdentityData
test_data = record {
  schema_version = identity_schema_version;
  users =
      ("ada", a_user "ada" member (default_team_id ∷ "lab" ∷ []))
      ∷ ("bob", a_user "bob" admin (default_team_id ∷ []))
      ∷ [];
  teams =
      (default_team_id, a_team default_team_id every ("bob" ∷ []))
      ∷ ("lab", a_team "lab" (only ("openai" ∷ "local" ∷ [])) ("ada" ∷ []))
      ∷ [];
  keys = ("k2", bob_key) ∷ ("k1", ada_key) ∷ [];
  org_budget = none;
  pricing = none;
}

abbrev test_store : Store
test_store = record {
  data_now = test_data;
  ephemeral_user_ids = [];
  closed = false;
  committed = test_data;
}

test_data-valid : validate_identity_data test_data ≡ true
unfolding validate_identity_data
test_data-valid = refl

test_store-IsSynced : IsSynced test_store
test_store-IsSynced = record {
  is_open = refl;
  all_persisted = refl;
  written = refl;
  valid = test_data-valid;
  teams_distinct = (refl, (refl, tt));
  keys_distinct = (refl, (refl, tt));
}

test_data-IsConsistent : IsConsistent test_data
test_data-IsConsistent = record {
  users_ok = refl;
  teams_ok = refl;
  keys_ok = refl;
  keys_named = refl;
}

abbrev ada_key-authenticates : Type 0
ada_key-authenticates = authenticate_key test_hash test_data (some "mk_ada") ≡ some ada_key

ada_key-found : ada_key-authenticates
unfolding authenticate_key equal_hex key_usable
ada_key-found = refl

authenticate_key_example : IsAuthentic test_hash test_data "mk_ada" ada_key
authenticate_key_example =
    authenticate_key-IsAuthentic test_hash test_data "mk_ada" ada_key ada_key-found

authenticate_key-is_some_example :
    is_some (authenticate_key test_hash test_data (some "mk_ada")) ≡ true
authenticate_key-is_some_example =
    authenticate_key-is_some test_hash test_data "mk_ada" ada_key refl
      (authenticate_key-IsAuthentic test_hash test_data "mk_ada" ada_key ada_key-found)

bob_revoked : (revoke_key true "k2" test_store).1 ≡ ok true
unfolding revoke_key save validate_identity_data persisted_identity
bob_revoked = refl

ada_stays :
    authenticate_key test_hash (revoke_key true "k2" test_store).0.data_now (some "mk_ada")
    ≡ some ada_key
unfolding revoke_key authenticate_key save validate_identity_data persisted_identity equal_hex
    key_usable
ada_stays = refl

revoke_key_example : (ada_key.id == "k2") ≡ false
revoke_key_example =
    revoke_key-revokes test_hash true "k2" "mk_ada" test_store ada_key refl bob_revoked ada_stays

updates_example :
    IsSettled test_store (put_user true (a_user "eve" member ("lab" ∷ [])) test_store)
    × IsSettled test_store (remove_user true "ada" test_store)
    × IsSettled test_store (put_team true (a_team "ops" every []) test_store)
    × IsSettled test_store (remove_team true "ada" test_store)
updates_example =
    updates-IsSettled true (a_user "eve" member ("lab" ∷ [])) (a_team "ops" every []) "ada"
      test_store

remove_user_example :
    ((remove_user true "ada" test_store).1 ≡ ok true)
    × IsUserRemoved "ada" test_data (remove_user true "ada" test_store).0.data_now
    × IsSynced (remove_user true "ada" test_store).0
remove_user_example = remove_user-removes "ada" test_store test_store-IsSynced refl

with_user_example : IsConsistent (with_user (a_user "eve" member ("gone" ∷ [])) test_data)
with_user_example =
    with_user-IsConsistent (a_user "eve" member ("gone" ∷ [])) test_data test_data-IsConsistent

with_team_example : IsConsistent (with_team (a_team "ops" every ("bob" ∷ [])) test_data)
with_team_example =
    with_team-IsConsistent (a_team "ops" every ("bob" ∷ [])) test_data test_data-IsConsistent refl

persisted_identity_example : IsConsistent (persisted_identity test_data ("ada" ∷ []))
persisted_identity_example =
    persisted_identity-IsConsistent test_data ("ada" ∷ [])
      (record { named = refl; distinct = (refl, (refl, tt)) }) test_data-IsConsistent
