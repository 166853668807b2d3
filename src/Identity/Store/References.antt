-- ===== src/Identity/Store/References.antt =====
-- No operation on the identity data leaves a reference to a row that is not there.
use molenkopf.Base.{
  String, ◌≡◌, refl, inl, inr, true, Bool, Bool-cases, not, ◌&&◌, ◌||◌, List, [], ◌∷◌, arith, ◌∙◌,
  Option-cases, all_rows-erase_weak, all_rows-erase_all_weak, has-erase_all, Dict, has, has-erase,
  has-map_values, erase, erase_all, map_values, all_mono, all-filter, all_rows, all_rows_mono,
  all_rows-map_values, all_rows-and, all_rows-erase_all, filter, includes, eq_iff, eq_refl, ◌==◌,
}
use molenkopf.Identity.{User, Team, ApiKey, IdentityData}
use molenkopf.Identity.Validation.{user_refs, team_refs, key_refs}
use molenkopf.Identity.Store.Persisted.{AreTeamsNamed, persisted_identity-in_place}
use molenkopf.Identity.Store.{
  owned_ids, keys_without, without_managers, persisted_identity, without_user, bills, detach,
  leave_team, without_team,
}

-- Each reference has its row, and each key stands under its own id.
pub record IsConsistent (d : IdentityData) : Type 0 where
  pub users_ok : all_rows (λ _ u. user_refs d u) d.users ≡ true
  pub teams_ok : all_rows (λ _ t. team_refs d t) d.teams ≡ true
  pub keys_ok : all_rows (λ _ k. key_refs d k) d.keys ≡ true
  pub keys_named : all_rows (λ id k. k.id == id) d.keys ≡ true

-- `p` implies `q`, as a test.
abbrev implies : Bool → Bool → Bool
implies p q = not p || q

module _ (gone : String → Bool) where
  -- The id of each key whose owner is gone is among those that are deleted.
  owned_ids_complete :
      (keys : Dict ApiKey)
      → all_rows (λ _ k. implies (gone k.owner_user_id) (includes (owned_ids gone keys) k.id)) keys
        ≡ true
  owned_ids_complete [] = refl
  owned_ids_complete ((id, key) ∷ keys) = ground (
    arith,
    eq_refl key.id,
    all_rows_mono (λ _ k. implies (gone k.owner_user_id) (includes (owned_ids gone keys) k.id))
        (λ _ k. implies (gone k.owner_user_id) (includes (owned_ids gone ((id, key) ∷ keys)) k.id))
        (λ _ k h. ground arith) keys (owned_ids_complete keys),
  )

  -- No key of an owner who is gone is left.
  pub keys_without-lacks :
      (keys : Dict ApiKey)
      → all_rows (λ id k. k.id == id) keys ≡ true
      → all_rows (λ _ k. not (gone k.owner_user_id)) (keys_without gone keys) ≡ true
  keys_without-lacks keys named =
      all_rows_mono _ _ (λ id k h. ground (arith, eq_iff k.id id)) (keys_without gone keys)
        (all_rows-erase_all _ (owned_ids gone keys) keys
          (all_rows-and _ _ keys named (owned_ids_complete keys)))

  module _ (d : IdentityData) (users : Dict User) where
    abbrev remaining : IdentityData
    remaining = record d {
      users = users;
      keys = keys_without gone d.keys;
      teams = map_values (without_managers gone) d.teams;
    }

    remaining-team_refs :
        (t : Team)
        → ((j : String) → (not (gone j) && has j d.users) ≡ true → has j users ≡ true)
        → team_refs d t ≡ true
        → team_refs remaining (without_managers gone t) ≡ true
    remaining-team_refs t known refs =
        all_mono (λ id. not (gone id) && has id d.users) (λ id. has id users) known
          (filter (λ id. not (gone id)) t.manager_ids)
          (all-filter (λ id. not (gone id)) (λ id. has id d.users) t.manager_ids refs)

    remaining-user_refs : (u : User) → user_refs d u ≡ true → user_refs remaining u ≡ true
    remaining-user_refs u refs =
        all_mono (λ id. has id d.teams) (λ id. has id remaining.teams)
          (λ id h. has-map_values (without_managers gone) id d.teams ∙ h) u.team_ids refs

    remaining-key_refs :
        (k : ApiKey)
        → ((j : String) → (not (gone j) && has j d.users) ≡ true → has j users ≡ true)
        → (key_refs d k && not (gone k.owner_user_id)) ≡ true
        → key_refs remaining k ≡ true
    remaining-key_refs k known h = elim (Option-cases k.team_id) [
      | inl unset ↦ rw unset (ground (arith, known k.owner_user_id))
      | inr (t, e) ↦
          rw e (
            ground (arith, known k.owner_user_id, has-map_values (without_managers gone) t d.teams))
    ]

    -- With the users of `users` left, all those among them who are not gone.
    remaining-IsConsistent :
        IsConsistent d
        → all_rows (λ _ u. user_refs d u) users ≡ true
        → ((j : String) → (not (gone j) && has j d.users) ≡ true → has j users ≡ true)
        → IsConsistent remaining
    remaining-IsConsistent c kept known = record {
      users_ok = all_rows_mono _ _ (λ _ u. remaining-user_refs u) users kept;
      teams_ok =
          all_rows-map_values _ _ (without_managers gone) (λ _ t. remaining-team_refs t known)
            d.teams c.teams_ok;
      keys_ok =
          all_rows_mono _ _ (λ _ k. remaining-key_refs k known) remaining.keys
            (all_rows-and _ _ remaining.keys
              (all_rows-erase_all_weak _ (owned_ids gone d.keys) d.keys c.keys_ok)
              (keys_without-lacks d.keys c.keys_named));
      keys_named = all_rows-erase_all_weak _ (owned_ids gone d.keys) d.keys c.keys_named;
    }

pub without_user-IsConsistent :
    (id : String) (d : IdentityData) → IsConsistent d → IsConsistent (without_user id d)
without_user-IsConsistent id d c =
    remaining-IsConsistent (λ owner. owner == id) d (erase id d.users) c
      (all_rows-erase_weak _ id d.users c.users_ok)
      (λ j h. ground (arith, has-erase id j d.users, eq_iff id j, eq_iff j id))

-- What is written of data in which each reference has its row, and each key and each team stands under
-- its own id, no two teams under one, is data in which each reference has its row, and each key stands
-- under its own id, whichever users are left out as ephemeral.
pub persisted_identity-IsConsistent :
    (d : IdentityData) (ephemeral : List String)
    → AreTeamsNamed d
    → IsConsistent d
    → IsConsistent (persisted_identity d ephemeral)
persisted_identity-IsConsistent d ephemeral named c =
    rw (persisted_identity-in_place d ephemeral named) (
      remaining-IsConsistent (includes ephemeral) d (erase_all ephemeral d.users) c
        (all_rows-erase_all_weak _ ephemeral d.users c.users_ok)
        (λ j h. ground (arith, has-erase_all ephemeral j d.users)))

leave_team-refs :
    (id : String) (d : IdentityData) (u : User)
    → user_refs d u ≡ true
    → user_refs (without_team id d) (leave_team id u) ≡ true
leave_team-refs id d u refs =
    all_mono (λ t. not (t == id) && has t d.teams) (λ t. has t (erase id d.teams))
      (λ t h. ground (arith, has-erase id t d.teams, eq_iff id t, eq_iff t id))
      (filter (λ t. not (t == id)) u.team_ids)
      (all-filter (λ t. not (t == id)) (λ t. has t d.teams) u.team_ids refs)

detach-refs :
    (id : String) (d : IdentityData) (k : ApiKey)
    → key_refs d k ≡ true
    → key_refs (without_team id d) (detach id k) ≡ true
detach-refs id d k refs = elim (Option-cases k.team_id) [
  | inl unset ↦ rw unset (ground (arith, has-map_values (leave_team id) k.owner_user_id d.users))
  | inr (t, e) ↦ elim (Bool-cases (t == id)) [
    | inl same ↦
        rw (e, same) (ground (arith, has-map_values (leave_team id) k.owner_user_id d.users))
    | inr other ↦
        rw (e, other)
          (ground (
            arith,
            has-map_values (leave_team id) k.owner_user_id d.users,
            has-erase id t d.teams,
            eq_iff id t,
            eq_iff t id,
          ))
  ]
]

detach-id : (id : String) (k : ApiKey) → (detach id k).id ≡ k.id
detach-id id k = elim (Bool-cases (bills id k.team_id)) [ inl e ↦ rw e | inr e ↦ rw e ]

pub without_team-IsConsistent :
    (id : String) (d : IdentityData) → IsConsistent d → IsConsistent (without_team id d)
without_team-IsConsistent id d c = record {
  users_ok =
      all_rows-map_values _ _ (leave_team id) (λ _ u. leave_team-refs id d u) d.users c.users_ok;
  teams_ok =
      all_rows_mono _ _
        (λ _ t. all_mono _ _ (λ j h. has-map_values (leave_team id) j d.users ∙ h) t.manager_ids)
        (erase id d.teams) (all_rows-erase_weak _ id d.teams c.teams_ok);
  keys_ok = all_rows-map_values _ _ (detach id) (λ _ k. detach-refs id d k) d.keys c.keys_ok;
  keys_named =
      all_rows-map_values _ _ (detach id) (λ j k h. rw (detach-id id k) h) d.keys c.keys_named;
}
