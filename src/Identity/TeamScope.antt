-- ===== src/Identity/TeamScope.antt =====
-- The teams that count for a policy, packages/core/src/identity/team-scope.ts.
pub mod Laws
use molenkopf.Base.{
  String, Bool, not, Option, none, some, List, [], ◌∷◌, filter, unique, includes, is_empty, ◌==◌,
  ◌&&◌, if◌then◌else◌,
}

abbrev pub default_team_id : String
default_team_id = "everyone"

abbrev pub is_default_team_id : String → Bool
is_default_team_id id = id == default_team_id

abbrev pub is_named : String → Bool
is_named id = not (is_empty id)

unfoldable pub unique_team_ids : List String → List String
unique_team_ids team_ids = unique (filter is_named team_ids)

abbrev pub is_specific : String → Bool
is_specific id = not (is_default_team_id id)

unfoldable pub non_default_team_ids : List String → List String
unfolding unique_team_ids
non_default_team_ids team_ids = filter is_specific (unique_team_ids team_ids)

-- `xs.length`, as a test
abbrev pub has_any : List String → Bool
has_any [] = Bool.false
has_any (x ∷ xs) = Bool.true

unfoldable pub effective_policy_team_ids : List String → List String
unfolding unique_team_ids non_default_team_ids
effective_policy_team_ids team_ids =
    let ids = unique_team_ids team_ids in
    let specific = non_default_team_ids ids in if has_any specific then specific else ids

-- With a key's team: an empty text counts as missing.
scoped_to_key : List String → List String → String → List String
scoped_to_key owner explicit_teams key_team_id =
    if is_empty key_team_id
    then (if has_any explicit_teams then explicit_teams else owner)
    else if is_default_team_id key_team_id && has_any explicit_teams
    then explicit_teams
    else if includes owner key_team_id
    then key_team_id ∷ []
    else []

unfoldable pub scoped_identity_team_ids : List String → Option String → List String
unfolding unique_team_ids non_default_team_ids scoped_to_key
scoped_identity_team_ids owner_team_ids none =
    let owner = unique_team_ids owner_team_ids in
    let explicit_teams = non_default_team_ids owner in
    if has_any explicit_teams then explicit_teams else owner
scoped_identity_team_ids owner_team_ids (some key_team_id) =
    let owner = unique_team_ids owner_team_ids in
    scoped_to_key owner (non_default_team_ids owner) key_team_id
