-- ===== src/Identity/TeamScope/Laws.antt =====
-- What the teams of a request can be.
use molenkopf.Base.{
  String, ◌≡◌, refl, ◌∙◌, ◌↔◌, inl, inr, true, false, ◌&&◌, Option, none, some, List, [], ◌∷◌,
  arith, ap, filter_self, unique_self, includes, includes-filter, includes-unique, filter, unique,
  IsUnique, unique-IsUnique, filter-IsUnique, is_empty, ◌==◌, eq_iff, Bool-cases, if◌then◌else◌,
}
use molenkopf.Identity.TeamScope.{
  default_team_id, is_default_team_id, is_named, is_specific, has_any, unique_team_ids,
  non_default_team_ids, scoped_to_key, scoped_identity_team_ids, effective_policy_team_ids,
}

pub includes-unique_team_ids :
    (ids : List String) (t : String)
    → includes (unique_team_ids ids) t ≡ (includes ids t && is_named t)
unfolding unique_team_ids
includes-unique_team_ids ids t =
    includes-unique (filter is_named ids) t ∙ includes-filter is_named ids t

pub includes-non_default :
    (ids : List String) (t : String)
    → includes (non_default_team_ids ids) t ≡ (includes (unique_team_ids ids) t && is_specific t)
unfolding non_default_team_ids
includes-non_default ids t = includes-filter is_specific (unique_team_ids ids) t

unique_team_ids-IsUnique : (ids : List String) → IsUnique (unique_team_ids ids)
unfolding unique_team_ids
unique_team_ids-IsUnique ids = unique-IsUnique (filter is_named ids)

non_default-IsUnique : (ids : List String) → IsUnique (non_default_team_ids ids)
unfolding non_default_team_ids
non_default-IsUnique ids =
    filter-IsUnique is_specific (unique_team_ids ids) (unique_team_ids-IsUnique ids)

-- The default team is never among the specific ones.
non_default-lacks_default :
    (ids : List String) → includes (non_default_team_ids ids) default_team_id ≡ false
non_default-lacks_default ids =
    ground (arith, includes-non_default ids default_team_id, eq_iff default_team_id default_team_id)

-- What the teams of a request are, of those of the key's owner: no team twice, each of them a named
-- team of the owner, and the default team only if the owner has no other.
pub record IsScope (owner : List String) (scope : List String) : Type 0 where
  pub once : IsUnique scope
  pub owned : (t : String) → includes scope t ≡ true → includes owner t ≡ true
  pub specific :
      has_any (non_default_team_ids owner) ≡ true → includes scope default_team_id ≡ false

unique_team_ids_self :
    (ids : List String) → unique_team_ids (unique_team_ids ids) ≡ unique_team_ids ids
unfolding unique_team_ids
unique_team_ids_self ids =
    ap unique (
      filter_self is_named (unique_team_ids ids)
        (λ t h. ground (arith, includes-unique_team_ids ids t)))
    ∙ unique_self (unique_team_ids ids) (unique_team_ids-IsUnique ids)

abbrev explicit : List String → List String
explicit owner = non_default_team_ids (unique_team_ids owner)

explicit-eq : (owner : List String) → explicit owner ≡ non_default_team_ids owner
unfolding non_default_team_ids
explicit-eq owner = ap (filter is_specific) (unique_team_ids_self owner)

IsScope-explicit : (owner : List String) → IsScope owner (explicit owner)
IsScope-explicit owner = record {
  once = non_default-IsUnique (unique_team_ids owner);
  owned = λ t h. ground (
    arith,
    includes-non_default (unique_team_ids owner) t,
    includes-unique_team_ids (unique_team_ids owner) t,
    includes-unique_team_ids owner t,
  );
  specific = λ h. non_default-lacks_default (unique_team_ids owner);
}

IsScope-owner :
    (owner : List String) → has_any (explicit owner) ≡ false → IsScope owner (unique_team_ids owner)
IsScope-owner owner none_specific = record {
  once = unique_team_ids-IsUnique owner;
  owned = λ t h. ground (arith, includes-unique_team_ids owner t);
  specific = λ h. absurd (ground (arith, explicit-eq owner));
}

IsScope-single :
    (owner : List String) (t : String)
    → includes (unique_team_ids owner) t ≡ true
    → (has_any (explicit owner) ≡ true → t == default_team_id ≡ false)
    → IsScope owner (t ∷ [])
IsScope-single owner t h ne = record {
  once = (refl, tt);
  owned = λ u e. ground (arith, eq_iff t u, includes-unique_team_ids owner t);
  specific = λ some_specific. ground (arith, ne, explicit-eq owner);
}

IsScope-none : (owner : List String) → IsScope owner []
IsScope-none owner = record { once = tt; owned = λ t h. cc; specific = λ h. refl }

has_any_of_includes : (xs : List String) (t : String) → includes xs t ≡ true → has_any xs ≡ true
has_any_of_includes [] t h = cc
has_any_of_includes (x ∷ xs) t h = refl

scoped_to_key-IsScope :
    (owner : List String) (k : String)
    → IsScope owner (scoped_to_key (unique_team_ids owner) (explicit owner) k)
unfolding scoped_to_key
scoped_to_key-IsScope owner k = elim (Bool-cases (is_empty k)) [
  | inl empty ↦ elim (Bool-cases (has_any (explicit owner))) [
    | inl e ↦ rw (empty, e) (IsScope-explicit owner)
    | inr e ↦ rw (empty, e) (IsScope-owner owner e)
  ]
  | inr named ↦ elim (Bool-cases (is_default_team_id k && has_any (explicit owner))) [
    | inl e ↦ rw (named, e) (IsScope-explicit owner)
    | inr e ↦ elim (Bool-cases (includes (unique_team_ids owner) k)) [
      | inl m ↦ rw (named, e, m) (IsScope-single owner k m (λ h. ground arith))
      | inr m ↦ rw (named, e, m) (IsScope-none owner)
    ]
  ]
]

-- Whatever team the key names, the teams that a request counts for are teams of the key's owner, none
-- of them twice, and the default team is among them only if the owner has no other.
pub scoped_identity_team_ids-IsScope :
    (owner : List String) (key_team_id : Option String)
    → IsScope owner (scoped_identity_team_ids owner key_team_id)
unfolding scoped_identity_team_ids
scoped_identity_team_ids-IsScope owner none = elim (Bool-cases (has_any (explicit owner))) [
  | inl e ↦ rw e (IsScope-explicit owner)
  | inr e ↦ rw e (IsScope-owner owner e)
]
scoped_identity_team_ids-IsScope owner (some k) = scoped_to_key-IsScope owner k

-- A key that names a specific team counts for that team alone where the owner is a member of it, and
-- for no team where the owner is not.
pub scoped_identity_team_ids-pinned :
    (owner : List String) (k : String)
    → is_named k ≡ true
    → is_specific k ≡ true
    → scoped_identity_team_ids owner (some k) ≡ (if includes owner k then k ∷ [] else [])
unfolding scoped_identity_team_ids
scoped_identity_team_ids-pinned owner k named specific =
    ground (arith, includes-unique_team_ids owner k)

-- The default team counts for a policy exactly when it is listed and no other named team is.
pub effective_policy-default_iff :
    (ids : List String)
    → (includes (effective_policy_team_ids ids) default_team_id ≡ true)
      ↔ ((includes ids default_team_id ≡ true) × (has_any (non_default_team_ids ids) ≡ false))
unfolding effective_policy_team_ids
effective_policy-default_iff ids = ground (
  arith,
  explicit-eq ids,
  includes-unique_team_ids ids default_team_id,
  non_default-lacks_default ids,
)

-- A named team other than the default one counts for a policy exactly when it is listed.
pub effective_policy-specific :
    (ids : List String) (t : String)
    → is_named t ≡ true
    → is_specific t ≡ true
    → includes (effective_policy_team_ids ids) t ≡ includes ids t
unfolding effective_policy_team_ids
effective_policy-specific ids t named specific = ground (
  arith,
  explicit-eq ids,
  includes-non_default ids t,
  includes-unique_team_ids ids t,
  has_any_of_includes (non_default_team_ids ids) t,
)
