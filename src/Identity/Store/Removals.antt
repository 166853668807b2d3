-- ===== src/Identity/Store/Removals.antt =====
-- A removal that the database carries out succeeds, and what it removes is gone.
use mathlib.Core.Option
use molenkopf.Base.{
  Bool, not, ◌&&◌, none, some, lookup, lookup-erase, lookup-erase_all, lookup-map_values, inl, inr,
  all_rows, all_rows_mono, all_rows-lookup, Bool-cases, eq_iff, eq_refl, includes-filter,
  has-map_values, IsDistinct, map_values-IsDistinct, erase-IsDistinct, erase_all-IsDistinct, ◌∙◌,
  String, true, false, ◌≡◌, refl, ap, [], ◌∷◌, arith, has, ok, map_values, ◌==◌, filter-all,
  all-const, Dict, includes,
}
use molenkopf.Identity.{Team, ApiKey, IdentityData}
use molenkopf.Identity.TeamScope.{default_team_id}
use molenkopf.Identity.Validation.{validate_identity_data, is_identity_team, is_identity_api_key}
use molenkopf.Identity.Store.{
  keys_without, detach, Store, persisted_identity, save, owned_ids, without_managers, remove_user,
  remove_team, without_user, without_team,
}
use molenkopf.Identity.Store.Persisted.{AreTeamsNamed, persisted_identity-in_place}
use molenkopf.Identity.Store.References.{keys_without-lacks}
use molenkopf.Identity.Store.Valid.{without_user-valid, without_team-valid}

none_gone : (keys : Dict ApiKey) → owned_ids (includes []) keys ≡ []
none_gone [] = refl
none_gone ((_, k) ∷ keys) = none_gone keys

all_stay : (t : Team) → without_managers (includes []) t ≡ t
all_stay t =
    ap (λ ids. record t { manager_ids = ids })
      (filter-all (λ _. true) t.manager_ids (all-const t.manager_ids))

map_values_self : (teams : Dict Team) → map_values (without_managers (includes [])) teams ≡ teams
map_values_self [] = refl
map_values_self ((k, t) ∷ teams) = cc (all_stay t, map_values_self teams)

-- With no user marked ephemeral the data is written as it stands.
persisted_identity-none : (d : IdentityData) → AreTeamsNamed d → persisted_identity d [] ≡ d
persisted_identity-none d h =
    persisted_identity-in_place d [] h ∙ cc (none_gone d.keys, map_values_self d.teams)

-- A store whose memory is what is written, passes every check, and has no ephemeral user, and in which
-- no team's and no key's id stands twice.
pub record IsSynced (s : Store) : Type 0 where
  pub is_open : s.closed ≡ false
  pub all_persisted : s.ephemeral_user_ids ≡ []
  pub written : s.committed ≡ s.data_now
  pub valid : validate_identity_data s.data_now ≡ true
  pub teams_distinct : IsDistinct s.data_now.teams
  pub keys_distinct : IsDistinct s.data_now.keys

valid-AreTeamsNamed :
    (d : IdentityData) → validate_identity_data d ≡ true → IsDistinct d.teams → AreTeamsNamed d
unfolding validate_identity_data
valid-AreTeamsNamed d valid distinct = record {
  named =
      all_rows_mono (λ id t. is_identity_team t && t.id == id) (λ id t. t.id == id)
        (λ id t h. ground arith) d.teams (ground arith);
  distinct = distinct;
}

keys_named :
    (d : IdentityData)
    → validate_identity_data d ≡ true
    → all_rows (λ id k. k.id == id) d.keys ≡ true
unfolding validate_identity_data
keys_named d valid =
    all_rows_mono (λ id k. is_identity_api_key k && k.id == id) (λ id k. k.id == id)
      (λ id k h. ground arith) d.keys (ground arith)

save-succeeds :
    (s : Store) (d : IdentityData)
    → IsSynced s
    → validate_identity_data d ≡ true
    → IsDistinct d.teams
    → save true (record s { data_now = d }) ≡ ok (record s { data_now = d; committed = d })
unfolding save
save-succeeds s d h valid distinct =
    ground (arith, persisted_identity-none d (valid-AreTeamsNamed d valid distinct))

-- What a removal leaves: the user is gone, with the user's keys and the user's place among the managers
-- of each team; every other user and key is as it was, and each team has its other managers.
pub record IsUserRemoved (id : String) (before after : IdentityData) : Type 0 where
  pub gone : lookup id after.users ≡ none
  pub others : (j : String) → (id == j) ≡ false → lookup j after.users ≡ lookup j before.users
  pub keys_gone :
      (k : String) (key : ApiKey)
      → lookup k after.keys ≡ some key
      → (key.owner_user_id == id) ≡ false
  pub keys_kept :
      (k : String) (key : ApiKey)
      → lookup k before.keys ≡ some key
      → (key.owner_user_id == id) ≡ false
      → lookup k after.keys ≡ some key
  pub teams_kept : (t : String) → has t after.teams ≡ has t before.teams
  pub managers :
      (t : String) (team : Team)
      → lookup t before.teams ≡ some team
      → (team' : Team) × (lookup t after.teams ≡ some team')
        × ((j : String)
            → includes team'.manager_ids j ≡ (includes team.manager_ids j && not (j == id)))

module _ (gone : String → Bool) where
  fresh-not_owned :
      (k : String) (keys : Dict ApiKey)
      → all_rows (λ id key. key.id == id) keys ≡ true
      → has k keys ≡ false
      → includes (owned_ids gone keys) k ≡ false
  fresh-not_owned k [] named fresh = refl
  fresh-not_owned k ((id, key) ∷ keys) named fresh =
      ground (arith, eq_iff key.id id, eq_iff key.id k, eq_refl id, fresh-not_owned k keys)

  -- A key whose owner stays is not among those that are deleted.
  kept-not_owned :
      (k : String) (keys : Dict ApiKey) {key : ApiKey}
      → all_rows (λ id key. key.id == id) keys ≡ true
      → IsDistinct keys
      → lookup k keys ≡ some key
      → gone key.owner_user_id ≡ false
      → includes (owned_ids gone keys) k ≡ false
  kept-not_owned k [] named distinct e stays = absurd (cc e)
  kept-not_owned k ((id, first) ∷ keys) {key} named distinct e stays = elim (Bool-cases (id == k)) [
    | inl same ↦
        let here : first ≡ key = ground arith in
        let fresh = fresh-not_owned id keys (ground arith) distinct.0 in ground (arith, eq_iff id k)
    | inr other ↦ ground (
      arith,
      eq_iff first.id id,
      eq_iff first.id k,
      eq_refl id,
      kept-not_owned k keys {key = key} (ground arith) distinct.1 (rw other at e) stays,
    )
  ]

without_user-IsUserRemoved :
    (id : String) (d : IdentityData)
    → all_rows (λ k key. key.id == k) d.keys ≡ true
    → IsDistinct d.keys
    → IsUserRemoved id d (without_user id d)
without_user-IsUserRemoved id d named distinct =
    let is_id : String → Bool = λ owner. owner == id in
    record {
      gone = ground (arith, lookup-erase id id d.users, eq_refl id);
      others = λ j other. ground (arith, lookup-erase id j d.users);
      keys_gone = λ k key e.
          let stays =
            all_rows-lookup (λ key. not (key.owner_user_id == id)) k (keys_without is_id d.keys)
              {v = key} (keys_without-lacks is_id d.keys named) e in
          ground arith;
      keys_kept = λ k key e stays.
          lookup-erase_all (owned_ids is_id d.keys) k d.keys
          ∙ rw (kept-not_owned is_id k d.keys {key = key} named distinct e stays) e;
      teams_kept = λ t. has-map_values (without_managers is_id) t d.teams;
      managers = λ t team e. (
        without_managers is_id team,
        lookup-map_values (without_managers is_id) t d.teams
            ∙ ap (Option.map (without_managers is_id)) e,
        λ j. includes-filter (λ m. not (m == id)) team.manager_ids j,
      );
    }

-- On an open store whose memory is written and passes its checks, in which no user is ephemeral and no
-- team's and no key's id stands twice, and with a database that carries the transaction out, removing
-- a user that is there succeeds and leaves the store in that state: the user is gone, with the user's
-- keys and the user's place among the managers of each team, every other user and key is as it was,
-- and each team has its other managers.
pub remove_user-removes :
    (id : String) (s : Store)
    → IsSynced s
    → has id s.data_now.users ≡ true
    → ((remove_user true id s).1 ≡ ok true)
      × IsUserRemoved id s.data_now (remove_user true id s).0.data_now
      × IsSynced (remove_user true id s).0
unfolding remove_user
remove_user-removes id s h known =
    let valid = without_user-valid id s.data_now h.valid in
    let teams_distinct =
      map_values-IsDistinct (without_managers (λ manager. manager == id)) s.data_now.teams
        h.teams_distinct in
    rw (known, save-succeeds s (without_user id s.data_now) h valid teams_distinct)
      (
        refl,
        without_user-IsUserRemoved id s.data_now (keys_named s.data_now h.valid) h.keys_distinct,
        record {
          is_open = h.is_open;
          all_persisted = h.all_persisted;
          written = refl;
          valid = valid;
          teams_distinct = teams_distinct;
          keys_distinct =
              erase_all-IsDistinct (owned_ids (λ owner. owner == id) s.data_now.keys)
                s.data_now.keys h.keys_distinct;
        },
      )

-- On an open store whose memory is written and passes its checks, in which no user is ephemeral and no
-- team's and no key's id stands twice, and with a database that carries the transaction out, removing
-- a team that is there and is not the default one succeeds, writes the
-- data without the team, and leaves the store in that state.
pub remove_team-removes :
    (id : String) (s : Store)
    → IsSynced s
    → has id s.data_now.teams ≡ true
    → (id == default_team_id) ≡ false
    → ((remove_team true id s).1 ≡ ok true)
      × ((remove_team true id s).0.data_now ≡ without_team id s.data_now)
      × IsSynced (remove_team true id s).0
unfolding remove_team
remove_team-removes id s h known specific =
    let valid = without_team-valid id s.data_now h.valid in
    let teams_distinct = erase-IsDistinct id s.data_now.teams h.teams_distinct in
    rw (specific, known, save-succeeds s (without_team id s.data_now) h valid teams_distinct)
      (
        refl,
        refl,
        record {
          is_open = h.is_open;
          all_persisted = h.all_persisted;
          written = refl;
          valid = valid;
          teams_distinct = teams_distinct;
          keys_distinct = map_values-IsDistinct (detach id) s.data_now.keys h.keys_distinct;
        },
      )
