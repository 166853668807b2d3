-- ===== src/Identity/ApiKeys/Laws.antt =====
-- What a presented secret gives, and when it stops to.
use molenkopf.Base.{
  String, ◌≡◌, refl, inl, inr, Bool, true, false, ◌&&◌, ◌||◌, not, Option, none, some, List, [],
  ◌∷◌, arith, ◌==◌, eq_iff, eq_refl, Bool-cases, Option-cases, is_some, Result, ok, fail, any, Dict,
  Memᴰ, any-of_listed, has, includes, length, ◌⊎◌, ap, ◌≤◌, lookup, values, all_rows, is_empty,
}
use molenkopf.Identity.TeamScope.{non_default_team_ids}
use molenkopf.Base.{update, all_rows-update}
use molenkopf.Identity.{User, ApiKey, IdentityData, flag}
use molenkopf.Identity.Validation.{is_sha256}
use molenkopf.Identity.Store.{Store, StoreError, save}
use molenkopf.Identity.ApiKeys.{
  at_most_one, clean_key_project, team_usable, key_usable, equal_hex, authenticate_among,
  presented_key, authenticate_key, disable, revoked_or_restored, revoke_row, revoke_key,
}

-- The owner is a member of the named team, which is there, or, with no team named, of at most one
-- team but the default one.
abbrev pub IsTeamUsable : IdentityData → User → Option String → Type 0
IsTeamUsable d u team_id =
    ((t : String) × (team_id ≡ some t)
      × (is_empty t ≡ false)
      × (has t d.teams ≡ true)
      × (includes u.team_ids t ≡ true))
    ⊎ (((team_id ≡ none) ⊎ (team_id ≡ some "")) × (length (non_default_team_ids u.team_ids) ≤ 1))

-- Why a presented secret is taken for a key.
pub record IsAuthentic (hash_secret : String → String) (d : IdentityData) (secret : String)
    (key : ApiKey) : Type 0 where
  pub stored : Memᴰ key (values d.keys)
  pub active : flag key.disabled ≡ false
  pub hashed : hash_secret secret ≡ key.hash
  pub well_formed : is_sha256 key.hash ≡ true
  pub owner :
      (u : User) × (lookup key.owner_user_id d.users ≡ some u)
      × (flag u.disabled ≡ false)
      × IsTeamUsable d u key.team_id
  pub for_project : is_some (clean_key_project key.project) ≡ true

abbrev pub accepts : IdentityData → String → ApiKey → Bool
accepts d candidate key =
    not (flag key.disabled) && equal_hex candidate key.hash && key_usable d key

among-accepts :
    (d : IdentityData) (candidate : String) (keys : List ApiKey) {key : ApiKey}
    → authenticate_among d candidate keys ≡ some key
    → (accepts d candidate key ≡ true) × Memᴰ key keys
unfolding authenticate_among
among-accepts d candidate [] e = absurd (cc e)
among-accepts d candidate (k ∷ keys) {key} e = elim (Bool-cases (accepts d candidate k)) [
  | inl good ↦ (ground arith, Memᴰ.head (ground arith))
  | inr bad ↦
      let (good, listed) = among-accepts d candidate keys {key = key} (rw bad at e) in
      (good, Memᴰ.tail listed)
]

is_empty-eq : (s : String) → is_empty s ≡ true → s ≡ ""
is_empty-eq String.[] h = refl
is_empty-eq (String.◌∷◌ c s) h = absurd (cc h)

at_most_one-length : (ts : List String) → at_most_one ts ≡ true → length ts ≤ 1
at_most_one-length [] h = ground arith
at_most_one-length (t ∷ []) h = ground arith
at_most_one-length (t ∷ u ∷ ts) h = absurd (cc h)

length-at_most_one : (ts : List String) → length ts ≤ 1 → at_most_one ts ≡ true
length-at_most_one [] h = refl
length-at_most_one (t ∷ []) h = refl
length-at_most_one (t ∷ u ∷ ts) h = absurd (omega (arith, h))

team_usable-IsTeamUsable :
    (d : IdentityData) (u : User) (team_id : Option String)
    → team_usable d u team_id ≡ true
    → IsTeamUsable d u team_id
team_usable-IsTeamUsable d u none h =
    inr (inl refl, at_most_one-length (non_default_team_ids u.team_ids) h)
team_usable-IsTeamUsable d u (some t) h = elim (Bool-cases (is_empty t)) [
  | inl e ↦ inr (
    inr (ap some (is_empty-eq t e)),
    at_most_one-length (non_default_team_ids u.team_ids) (rw e at h),
  )
  | inr e ↦ inl (t, refl, e, ground arith, ground arith)
]

IsTeamUsable-team_usable :
    (d : IdentityData) (u : User) (team_id : Option String)
    → IsTeamUsable d u team_id
    → team_usable d u team_id ≡ true
IsTeamUsable-team_usable d u team_id (inl (t, e, named, known, member)) =
    rw (e, named, known, member) refl
IsTeamUsable-team_usable d u team_id (inr (inl e, few)) =
    rw e (length-at_most_one (non_default_team_ids u.team_ids) few)
IsTeamUsable-team_usable d u team_id (inr (inr e, few)) =
    rw e (length-at_most_one (non_default_team_ids u.team_ids) few)

key_usable-owner :
    (d : IdentityData) (key : ApiKey)
    → key_usable d key ≡ true
    → ((u : User) × (lookup key.owner_user_id d.users ≡ some u)
        × (flag u.disabled ≡ false)
        × IsTeamUsable d u key.team_id)
      × (is_some (clean_key_project key.project) ≡ true)
unfolding key_usable
key_usable-owner d key h = elim (Option-cases (lookup key.owner_user_id d.users)) [
  | inl e ↦ absurd (ground arith)
  | inr (u, e) ↦
      ((u, e, ground arith, team_usable-IsTeamUsable d u key.team_id (ground arith)), ground arith)
]

equal_hex-parts : (a b : String) → equal_hex a b ≡ true → (a ≡ b) × (is_sha256 b ≡ true)
unfolding equal_hex
equal_hex-parts a b h = (ground (arith, eq_iff a b), ground arith)

-- A secret authenticates only as a row of the stored keys that is not disabled, whose hash it has and
-- is well formed, whose project is left a character when it is cleaned, and whose owner is there and
-- not disabled, and is a member of the key's team, which is there, or of at most one team but the
-- default one where the key names no team.
pub authenticate_key-IsAuthentic :
    (hash_secret : String → String) (d : IdentityData) (secret : String) (key : ApiKey)
    → authenticate_key hash_secret d (some secret) ≡ some key
    → IsAuthentic hash_secret d secret key
unfolding authenticate_key
authenticate_key-IsAuthentic hash_secret d secret key h =
    let found : presented_key hash_secret d secret ≡ some key = ground arith in
    let (good, listed) = among-accepts d (hash_secret secret) (values d.keys) found in
    record {
      stored = listed;
      active = ground arith;
      hashed = (equal_hex-parts (hash_secret secret) key.hash (ground arith)).0;
      well_formed = (equal_hex-parts (hash_secret secret) key.hash (ground arith)).1;
      owner = (key_usable-owner d key (ground arith)).0;
      for_project = (key_usable-owner d key (ground arith)).1;
    }

among-is_some :
    (d : IdentityData) (candidate : String) (keys : List ApiKey)
    → is_some (authenticate_among d candidate keys) ≡ any (accepts d candidate) keys
unfolding authenticate_among
among-is_some d candidate [] = refl
among-is_some d candidate (k ∷ keys) = elim (Bool-cases (accepts d candidate k)) [
  | inl good ↦ rw good
  | inr bad ↦ rw bad (among-is_some d candidate keys)
]

IsAuthentic-accepts :
    (hash_secret : String → String) (d : IdentityData) (secret : String) (key : ApiKey)
    → IsAuthentic hash_secret d secret key
    → accepts d (hash_secret secret) key ≡ true
unfolding key_usable equal_hex
IsAuthentic-accepts hash_secret d secret key a =
    let (u, e, active, team) = a.owner in
    let usable = IsTeamUsable-team_usable d u key.team_id team in
    rw (a.hashed, a.active, a.well_formed, e, active, a.for_project, usable, eq_refl key.hash) refl

-- A secret that is not empty authenticates wherever a row of the stored keys meets all these
-- conditions: it is not disabled, it has the secret's hash, which is well formed, its project is left
-- a character when it is cleaned, and its owner is there, is not disabled, and is a member of the
-- key's team, which is there, or of at most one team but the default one where the key names none.
pub authenticate_key-is_some :
    (hash_secret : String → String) (d : IdentityData) (secret : String) (key : ApiKey)
    → is_empty secret ≡ false
    → IsAuthentic hash_secret d secret key
    → is_some (authenticate_key hash_secret d (some secret)) ≡ true
unfolding authenticate_key
authenticate_key-is_some hash_secret d secret key named a =
    rw (named, among-is_some d (hash_secret secret) (values d.keys))
      (any-of_listed (accepts d (hash_secret secret)) (values d.keys) a.stored
        (IsAuthentic-accepts hash_secret d secret key a))

-- Each stored key stands under its own id.
abbrev pub AreNamed : IdentityData → Type 0
AreNamed d = all_rows (λ id k. k.id == id) d.keys ≡ true

among-all :
    (p : ApiKey → Bool) (d : IdentityData) (candidate : String) (keys : Dict ApiKey) {key : ApiKey}
    → all_rows (λ _ k. p k) keys ≡ true
    → authenticate_among d candidate (values keys) ≡ some key
    → p key ≡ true
unfolding authenticate_among
among-all p d candidate [] h e = cc
among-all p d candidate ((id, k) ∷ keys) {key} h e = elim (Bool-cases (accepts d candidate k)) [
  | inl good ↦ ground arith
  | inr bad ↦ ground (arith, among-all p d candidate keys {key = key})
]

authenticate_key-all :
    (p : ApiKey → Bool) (hash_secret : String → String) (d : IdentityData) (secret : String)
    {key : ApiKey}
    → all_rows (λ _ k. p k) d.keys ≡ true
    → authenticate_key hash_secret d (some secret) ≡ some key
    → p key ≡ true
unfolding authenticate_key
authenticate_key-all p hash_secret d secret h e = elim (Bool-cases (is_empty secret)) [
  | inl empty ↦ absurd (cc (rw empty at e))
  | inr named ↦ among-all p d (hash_secret secret) d.keys h (rw named at e)
]

disable-off :
    (id : String) (keys : Dict ApiKey)
    → all_rows (λ j k. k.id == j) keys ≡ true
    → all_rows (λ _ k. not (k.id == id) || flag k.disabled) (update id disable keys) ≡ true
disable-off id keys named =
    all_rows-update (λ j k. k.id == j) (λ _ k. not (k.id == id) || flag k.disabled) id disable
      (λ j k h. ground (arith, eq_iff k.id j, eq_iff j id, eq_iff k.id id)) keys named

abbrev revoked : String → IdentityData → IdentityData
revoked id d = record d { keys = update id disable d.keys }

save-data_now :
    (commits : Bool) (s : Store) {s' : Store} → save commits s ≡ ok s' → s'.data_now ≡ s.data_now
unfolding save
save-data_now commits s h = ground arith

revoked-data :
    (s : Store) (d : IdentityData) (r : Result StoreError Store)
    → ((s' : Store) → r ≡ ok s' → s'.data_now ≡ d)
    → (revoked_or_restored s r).1 ≡ ok true
    → (revoked_or_restored s r).0.data_now ≡ d
revoked-data s d (ok s') h done = h s' refl
revoked-data s d (fail e) h done = cc

revoke_row-data :
    (commits : Bool) (s : Store) (id : String) (row : Option ApiKey)
    → (revoke_row commits s id row).1 ≡ ok true
    → (revoke_row commits s id row).0.data_now ≡ revoked id s.data_now
unfolding revoke_row
revoke_row-data commits s id none done = absurd (cc done)
revoke_row-data commits s id (some key) done = elim (Bool-cases (flag key.disabled)) [
  | inl off ↦ absurd (ground arith)
  | inr active ↦ rw active (
      revoked-data s (revoked id s.data_now)
        (save commits (record s { data_now = revoked id s.data_now }))
        (λ s' e. save-data_now commits (record s { data_now = revoked id s.data_now }) e)
        (rw active at done))
]

-- Where each stored key stands under its own id, no secret authenticates, after a revocation that
-- succeeds, as a key with the id that was revoked.
pub revoke_key-revokes :
    (hash_secret : String → String) (commits : Bool) (id secret : String) (s : Store) (key : ApiKey)
    → AreNamed s.data_now
    → (revoke_key commits id s).1 ≡ ok true
    → authenticate_key hash_secret (revoke_key commits id s).0.data_now (some secret) ≡ some key
    → (key.id == id) ≡ false
unfolding revoke_key
revoke_key-revokes hash_secret commits id secret s key named done found =
    let same = revoke_row-data commits s id (lookup id s.data_now.keys) done in
    let valid =
      authenticate_key-IsAuthentic hash_secret (revoked id s.data_now) secret key
        (rw same at found) in
    let off =
      authenticate_key-all (λ k. not (k.id == id) || flag k.disabled) hash_secret
        (revoked id s.data_now) secret (disable-off id s.data_now.keys named) (rw same at found) in
    ground (arith, valid.active)
