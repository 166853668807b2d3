-- ===== src/Identity/Store/Valid.antt =====
-- Removing a user or a team leaves data that can be saved.
use molenkopf.Base.{
  String, ◌≡◌, true, Bool, ◌&&◌, arith, inl, inr, Bool-cases, all_rows, all_rows_mono,
  all_rows-map_values, all_rows-erase_weak, all_rows-erase_all_weak, nat_eq, ◌==◌,
}
use molenkopf.Identity.{User, Team, ApiKey, IdentityData, identity_schema_version}
use molenkopf.Identity.Validation.{
  is_identity_user, is_identity_team, is_identity_api_key, validate_identity_references,
  validate_identity_data, org_budget_ok,
}
use molenkopf.Identity.Store.{
  without_user, without_team, without_managers, owned_ids, leave_team, detach, bills,
}
use molenkopf.Identity.Store.References.{
  IsConsistent, without_user-IsConsistent, without_team-IsConsistent,
}

-- The rows of the data pass their checks, and the references hold.
record AreRows (d : IdentityData) : Type 0 where
  users_ok : all_rows (λ id u. is_identity_user u && u.id == id) d.users ≡ true
  teams_ok : all_rows (λ id t. is_identity_team t && t.id == id) d.teams ≡ true
  keys_ok : all_rows (λ id k. is_identity_api_key k && k.id == id) d.keys ≡ true
  refs : IsConsistent d

AreRows-valid : (d : IdentityData) → validate_identity_data d ≡ true → AreRows d
unfolding validate_identity_data validate_identity_references
AreRows-valid d h = record {
  users_ok = ground arith;
  teams_ok = ground arith;
  keys_ok = ground arith;
  refs = record {
    users_ok = ground arith;
    teams_ok = ground arith;
    keys_ok = ground arith;
    keys_named =
        all_rows_mono (λ id k. is_identity_api_key k && k.id == id) (λ id k. k.id == id)
          (λ id k e. ground arith) d.keys (ground arith);
  };
}

valid_of_rows :
    (d : IdentityData)
    → AreRows d
    → nat_eq d.schema_version identity_schema_version ≡ true
    → org_budget_ok d ≡ true
    → validate_identity_data d ≡ true
unfolding validate_identity_data validate_identity_references
valid_of_rows d r v b = ground arith

valid-parts :
    (d : IdentityData)
    → validate_identity_data d ≡ true
    → (nat_eq d.schema_version identity_schema_version ≡ true) × (org_budget_ok d ≡ true)
unfolding validate_identity_data
valid-parts d h = (ground arith, ground arith)

without_managers-ok :
    (gone : String → Bool) (id : String) (t : Team)
    → (is_identity_team t && t.id == id) ≡ true
    → (is_identity_team (without_managers gone t) && t.id == id) ≡ true
unfolding is_identity_team
without_managers-ok gone id t h = h

leave_team-ok :
    (team id : String) (u : User)
    → (is_identity_user u && u.id == id) ≡ true
    → (is_identity_user (leave_team team u) && u.id == id) ≡ true
unfolding is_identity_user
leave_team-ok team id u h = h

detach-ok :
    (team id : String) (k : ApiKey)
    → (is_identity_api_key k && k.id == id) ≡ true
    → (is_identity_api_key (detach team k) && (detach team k).id == id) ≡ true
unfolding is_identity_api_key
detach-ok team id k h = elim (Bool-cases (bills team k.team_id)) [
  | inl e ↦ rw e (ground arith)
  | inr e ↦ rw e h
]

-- Data without one of its users can be saved, if the data could.
pub without_user-valid :
    (id : String) (d : IdentityData)
    → validate_identity_data d ≡ true
    → validate_identity_data (without_user id d) ≡ true
unfolding org_budget_ok
without_user-valid id d h =
    let r = AreRows-valid d h in
    valid_of_rows (without_user id d)
      (record {
        users_ok = all_rows-erase_weak _ id d.users r.users_ok;
        teams_ok =
            all_rows-map_values _ _ (without_managers (λ manager. manager == id))
              (without_managers-ok (λ manager. manager == id)) d.teams r.teams_ok;
        keys_ok =
            all_rows-erase_all_weak _ (owned_ids (λ owner. owner == id) d.keys) d.keys r.keys_ok;
        refs = without_user-IsConsistent id d r.refs;
      })
      (valid-parts d h).0 (valid-parts d h).1

-- Data without one of its teams can be saved, if the data could.
pub without_team-valid :
    (id : String) (d : IdentityData)
    → validate_identity_data d ≡ true
    → validate_identity_data (without_team id d) ≡ true
unfolding org_budget_ok
without_team-valid id d h =
    let r = AreRows-valid d h in
    valid_of_rows (without_team id d)
      (record {
        users_ok = all_rows-map_values _ _ (leave_team id) (leave_team-ok id) d.users r.users_ok;
        teams_ok = all_rows-erase_weak _ id d.teams r.teams_ok;
        keys_ok = all_rows-map_values _ _ (detach id) (detach-ok id) d.keys r.keys_ok;
        refs = without_team-IsConsistent id d r.refs;
      })
      (valid-parts d h).0 (valid-parts d h).1
