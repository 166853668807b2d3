-- ===== src/Identity/Store/Inserts.antt =====
-- Adding or replacing a user or a team keeps every reference.
use molenkopf.Base.{
  ◌≡◌, refl, inl, inr, true, Bool-cases, Option-cases, arith, has, has-insert, has-map_values,
  insert, all_mono, all-filter_self, all_rows_mono, all_rows-map_values, all_rows-insert, ◌==◌, ◌∙◌,
}
use molenkopf.Identity.{User, Team, ApiKey, IdentityData}
use molenkopf.Identity.TeamScope.{default_team_id}
use molenkopf.Identity.Validation.{user_refs, team_refs, key_refs}
use molenkopf.Identity.Store.{normalize_user, normalize_default_team, with_user, with_team}
use molenkopf.Identity.Store.References.{IsConsistent}

-- Every team of a normalized user is known, whatever teams were given.
pub normalize_user-refs : (d : IdentityData) (u : User) → user_refs d (normalize_user d u) ≡ true
unfolding normalize_user
normalize_user-refs d u = ground (arith, all-filter_self (λ t. has t d.teams) u.team_ids)

normalize_user-id : (d : IdentityData) (u : User) → (normalize_user d u).id ≡ u.id
unfolding normalize_user
normalize_user-id d u = refl

pub with_user-IsConsistent :
    (u : User) (d : IdentityData) → IsConsistent d → IsConsistent (with_user u d)
with_user-IsConsistent u d c = record {
  users_ok =
      all_rows-insert _ u.id (normalize_user d u) d.users (normalize_user-refs d u) c.users_ok;
  teams_ok =
      all_rows_mono _ _
        (λ _ t.
          all_mono _ _ (λ id h. ground (arith, has-insert u.id id (normalize_user d u) d.users))
            t.manager_ids)
        d.teams c.teams_ok;
  keys_ok =
      all_rows_mono _ _
        (λ _ k h. ground (arith, has-insert u.id k.owner_user_id (normalize_user d u) d.users))
        d.keys c.keys_ok;
  keys_named = c.keys_named;
}

normalize_default_team-IsConsistent :
    (d : IdentityData) → IsConsistent d → IsConsistent (normalize_default_team d)
unfolding normalize_default_team
normalize_default_team-IsConsistent d c = elim (Bool-cases (has default_team_id d.teams)) [
  | inr missing ↦ rw missing c
  | inl present ↦ rw present (record {
    users_ok =
        all_rows-map_values _ _ (normalize_user d) (λ _ u h. normalize_user-refs d u) d.users
          c.users_ok;
    teams_ok =
        all_rows_mono _ _
          (λ _ t.
            all_mono _ _ (λ id h. has-map_values (normalize_user d) id d.users ∙ h) t.manager_ids)
          d.teams c.teams_ok;
    keys_ok =
        all_rows_mono _ _
          (λ _ k h. ground (arith, has-map_values (normalize_user d) k.owner_user_id d.users))
          d.keys c.keys_ok;
    keys_named = c.keys_named;
  })
]

insert_team-key_refs :
    (t : Team) (d : IdentityData) (k : ApiKey)
    → key_refs d k ≡ true
    → key_refs (record d { teams = insert t.id t d.teams }) k ≡ true
insert_team-key_refs t d k h = elim (Option-cases k.team_id) [
  | inl unset ↦ rw unset (rw unset at h)
  | inr (team, e) ↦ rw e (ground (arith, has-insert t.id team t d.teams))
]

insert_team-IsConsistent :
    (t : Team) (d : IdentityData)
    → IsConsistent d
    → team_refs d t ≡ true
    → IsConsistent (record d { teams = insert t.id t d.teams })
insert_team-IsConsistent t d c known = record {
  users_ok =
      all_rows_mono _ _
        (λ _ u. all_mono _ _ (λ id h. ground (arith, has-insert t.id id t d.teams)) u.team_ids)
        d.users c.users_ok;
  teams_ok = all_rows-insert _ t.id t d.teams known c.teams_ok;
  keys_ok = all_rows_mono _ _ (λ _ k. insert_team-key_refs t d k) d.keys c.keys_ok;
  keys_named = c.keys_named;
}

-- Adding or replacing a team whose managers are users keeps the data consistent: each reference has
-- its row, and each key stands under its own id.
pub with_team-IsConsistent :
    (t : Team) (d : IdentityData)
    → IsConsistent d
    → team_refs d t ≡ true
    → IsConsistent (with_team t d)
unfolding with_team
with_team-IsConsistent t d c known =
    let next = insert_team-IsConsistent t d c known in
    elim (Bool-cases (t.id == default_team_id)) [
      | inl e ↦ rw e (normalize_default_team-IsConsistent _ next)
      | inr e ↦ rw e next
    ]
