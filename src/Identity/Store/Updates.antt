-- ===== src/Identity/Store/Updates.antt =====
-- What the updates of the store do: each is carried out and written, or changes nothing.
use molenkopf.Base.{
  String, Bool, true, ◌≡◌, refl, ◌⊎◌, inl, inr, Bool-cases, arith, has, Result, ok, fail, ◌==◌,
}
use molenkopf.Identity.{User, Team, IdentityData}
use molenkopf.Identity.TeamScope.{default_team_id}
use molenkopf.Identity.Validation.{validate_identity_data}
use molenkopf.Identity.Store.{
  Store, StoreError, persisted_identity, save, commit, committed_or_restored, put_user, remove_user,
  put_team, remove_team, without_user, without_team, with_user, with_team,
}

-- How an update of `s` may end: the store holds data that passes its checks and that is written as it
-- stands, but for the users marked ephemeral; or the store is what it was.
abbrev pub IsSettled {ℓ} : {A : Type ℓ} → Store → Store × Result StoreError A → Type 0
IsSettled s (s', fail e) = s' ≡ s
IsSettled s (s', ok _) =
    (s' ≡ s)
    ⊎ ((s'.committed ≡ persisted_identity s'.data_now s'.ephemeral_user_ids)
        × (validate_identity_data s'.committed ≡ true))

save-ok :
    (commits : Bool) (s : Store) {s' : Store}
    → save commits s ≡ ok s'
    → (s'.committed ≡ persisted_identity s'.data_now s'.ephemeral_user_ids)
      × (validate_identity_data s'.committed ≡ true)
unfolding save
save-ok commits s h = ground arith

IsSettled-of_saved {ℓ} :
    {A : Type ℓ} (s : Store) (saved : Result StoreError Store) (result : IdentityData → A)
    → ((s' : Store)
        → saved ≡ ok s'
        → (s'.committed ≡ persisted_identity s'.data_now s'.ephemeral_user_ids)
          × (validate_identity_data s'.committed ≡ true))
    → IsSettled s (committed_or_restored s saved result)
IsSettled-of_saved s (ok s') result h = inr (h s' refl)
IsSettled-of_saved s (fail e) result h = refl

commit-IsSettled {ℓ} :
    {A : Type ℓ} (commits : Bool) (s : Store) (d : IdentityData) (result : IdentityData → A)
    → IsSettled s (commit commits s d result)
commit-IsSettled commits s d result =
    IsSettled-of_saved s (save commits (record s { data_now = d })) result
      (λ s' e. save-ok commits (record s { data_now = d }) e)

-- Adding or replacing a user or a team, and removing one, is all or nothing: where it fails the store
-- is as before, and where it succeeds the store is as before or what it holds passes every check and
-- is what was written, but for the users marked ephemeral.
pub updates-IsSettled :
    (commits : Bool) (u : User) (t : Team) (id : String) (s : Store)
    → IsSettled s (put_user commits u s)
      × IsSettled s (remove_user commits id s)
      × IsSettled s (put_team commits t s)
      × IsSettled s (remove_team commits id s)
unfolding put_user remove_user put_team remove_team
updates-IsSettled commits u t id s = (
  commit-IsSettled commits s (with_user u s.data_now) _,
  (elim (Bool-cases (has id s.data_now.users)) [
    | inl e ↦ rw e (commit-IsSettled commits s (without_user id s.data_now) _)
    | inr e ↦ rw e (inl refl)
  ]),
  commit-IsSettled commits s (with_team t s.data_now) _,
  (elim (Bool-cases (id == default_team_id)) [
    | inl e ↦ rw e (inl refl)
    | inr e ↦ elim (Bool-cases (has id s.data_now.teams)) [
      | inl k ↦ rw (e, k) (commit-IsSettled commits s (without_team id s.data_now) _)
      | inr k ↦ rw (e, k) (inl refl)
    ]
  ]),
)
