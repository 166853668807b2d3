-- ===== src/Identity/Store.antt =====
-- The identity store, packages/core/src/identity/identity-store.ts: the data in memory, and the data
-- that the database holds since the last commit. Whether SQLite opens and carries a transaction out
-- is its caller's `commits`. A copy by JSON is the value itself.
pub mod Persisted
pub mod References
pub mod Inserts
pub mod Valid
pub mod Updates
pub mod Removals
use molenkopf.Base.{
  String, Bool, true, false, not, ◌&&◌, Option, none, some, List, [], ◌∷◌, Dict, lookup, insert,
  erase, erase_all, map_values, values, has, filter, includes, map, Result, ok, fail, if◌then◌else◌,
  ◌==◌,
}
use molenkopf.Identity.{User, Team, ApiKey, IdentityData}
use molenkopf.Identity.TeamScope.{default_team_id}
use molenkopf.Identity.Validation.{validate_identity_data}

pub record Store : Type 0 where
  pub data_now : IdentityData
  pub ephemeral_user_ids : List String
  pub closed : Bool
  pub committed : IdentityData

pub data StoreError : Type 0 where
  store_closed invalid_data database_error key_id_collision : StoreError

-- The keys' ids whose owner is gone, in the order of the rows.
abbrev pub owned_ids : (String → Bool) → Dict ApiKey → List String
owned_ids gone [] = []
owned_ids gone ((_, key) ∷ keys) =
    if gone key.owner_user_id then key.id ∷ owned_ids gone keys else owned_ids gone keys

abbrev pub keys_without : (String → Bool) → Dict ApiKey → Dict ApiKey
keys_without gone keys = erase_all (owned_ids gone keys) keys

abbrev pub without_managers : (String → Bool) → Team → Team
without_managers gone team = record team {
  manager_ids = filter (λ id. not (gone id)) team.manager_ids;
}

-- Each team is assigned to its own id in turn, without the managers who are gone.
abbrev pub persist_teams : (String → Bool) → List Team → Dict Team → Dict Team
persist_teams gone [] teams = teams
persist_teams gone (team ∷ rest) teams =
    persist_teams gone rest (insert team.id (without_managers gone team) teams)

-- `persistedIdentity`: users marked ephemeral are not written.
unfoldable pub persisted_identity : IdentityData → List String → IdentityData
persisted_identity d ephemeral = record d {
  users = erase_all ephemeral d.users;
  keys = keys_without (includes ephemeral) d.keys;
  teams = persist_teams (includes ephemeral) (values d.teams) d.teams;
}

unfoldable pub save : Bool → Store → Result StoreError Store
save commits s =
    if s.closed
    then fail store_closed
    else let persisted = persisted_identity s.data_now s.ephemeral_user_ids in
      if validate_identity_data persisted
      then (if commits then ok (record s { committed = persisted }) else fail database_error)
      else fail invalid_data

-- Known teams only, and the default team in front where there is one.
unfoldable pub normalize_user : IdentityData → User → User
normalize_user d user =
    let kept = filter (λ id. has id d.teams) user.team_ids in
    record user {
      team_ids =
          if has default_team_id d.teams && not (includes kept default_team_id)
          then default_team_id ∷ kept
          else kept;
    }

unfoldable pub normalize_default_team : IdentityData → IdentityData
normalize_default_team d =
    if has default_team_id d.teams
    then record d { users = map_values (normalize_user d) d.users }
    else d

-- Runs `save` on the new data, and puts the old data back where it fails.
abbrev pub committed_or_restored {ℓ} :
    {A : Type ℓ}
    → Store
    → Result StoreError Store
    → (IdentityData → A)
    → Store × Result StoreError A
committed_or_restored s (ok s') result = (s', ok (result s'.data_now))
committed_or_restored s (fail e) result = (s, fail e)

abbrev pub commit {ℓ} :
    {A : Type ℓ} → Bool → Store → IdentityData → (IdentityData → A) → Store × Result StoreError A
commit commits s d result =
    committed_or_restored s (save commits (record s { data_now = d })) result

abbrev pub with_user : User → IdentityData → IdentityData
with_user user d = record d { users = insert user.id (normalize_user d user) d.users }

unfoldable pub put_user : Bool → User → Store → Store × Result StoreError (Option User)
put_user commits user s = commit commits s (with_user user s.data_now) (λ d. lookup user.id d.users)

abbrev pub without_user : String → IdentityData → IdentityData
without_user id d = record d {
  users = erase id d.users;
  keys = keys_without (λ owner. owner == id) d.keys;
  teams = map_values (without_managers (λ manager. manager == id)) d.teams;
}

unfoldable pub remove_user : Bool → String → Store → Store × Result StoreError Bool
remove_user commits id s =
    if has id s.data_now.users
    then commit commits s (without_user id s.data_now) (λ d. true)
    else (s, ok false)

unfoldable pub with_team : Team → IdentityData → IdentityData
unfolding normalize_default_team
with_team team d =
    let next = record d { teams = insert team.id team d.teams } in
    if team.id == default_team_id then normalize_default_team next else next

unfoldable pub put_team : Bool → Team → Store → Store × Result StoreError (Option Team)
put_team commits team s = commit commits s (with_team team s.data_now) (λ d. lookup team.id d.teams)

abbrev pub bills : String → Option String → Bool
bills id none = false
bills id (some t) = t == id

-- A key of the team is disabled, and bills no team any more.
abbrev pub detach : String → ApiKey → ApiKey
detach id key =
    if bills id key.team_id then record key { disabled = some true; team_id = none } else key

abbrev pub leave_team : String → User → User
leave_team id user = record user { team_ids = filter (λ t. not (t == id)) user.team_ids }

abbrev pub without_team : String → IdentityData → IdentityData
without_team id d = record d {
  teams = erase id d.teams;
  users = map_values (leave_team id) d.users;
  keys = map_values (detach id) d.keys;
}

unfoldable pub remove_team : Bool → String → Store → Store × Result StoreError Bool
remove_team commits id s =
    if id == default_team_id
    then (s, ok false)
    else if has id s.data_now.teams
    then commit commits s (without_team id s.data_now) (λ d. true)
    else (s, ok false)

-- `usersInTeam`
unfoldable pub users_in_team : String → IdentityData → List User
users_in_team team_id d =
    if team_id == default_team_id && has default_team_id d.teams
    then values d.users
    else filter (λ u. includes u.team_ids team_id) (values d.users)
