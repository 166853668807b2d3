-- ===== src/Snapshots.antt =====
-- The usage snapshot, packages/core/src/identity/usage-snapshot.ts: what `save` writes into the rows
-- of the table `usage` with the scope `live`, and what `load` reads. JSON is an argument.
pub mod Flush
pub mod Laws
pub mod Durable
pub mod Settles
pub mod Drains
pub mod Tests
use molenkopf.Base.{
  ℕ, zero, suc, ◌+◌, ◌-◌, ◌*◌, ◌/◌, ◌≤◌, ◌<◌, String, ◌≡◌, refl, sym, ap, ◌∙◌, ◌≢◌, ◌↔◌, ◌⊎◌, inl,
  inr, Bool, true, false, ◌&&◌, ◌||◌, not, Option, none, some, List, [], ◌∷◌, ◌++◌, map, arith,
  ◌==◌, eq_iff, eq_refl, ltb, leb, nat_eq, if◌then◌else◌, Bool-cases, Option-cases, or_else,
  or_option, is_some, ◌>>=◌, Result, ok, fail, length, take, drop, filter, find, any, all, All,
  length-append, includes, includes-filter, includes-append, other_than, unique, includes-unique,
  IsUnique, filter-IsUnique, unique-IsUnique, all_mono, all-filter, all-of_includes,
  all-filter_self, all-const, filter-all, Dict, lookup, insert, erase, values, lookup-insert,
  lookup-erase, has, has-erase, all_rows, erase_all, map_values, is_empty, is_space, trim, size,
  every_char, is_digit, is_letter, is_id_char, is_slug,
}

-- The maps of one user, agent, provider, key or team, as JSON values.
pub record JsonText (J : Type 0) : Type 0 where
  pub stringify : J → String
  pub parse : String → Option J
  pub empty_object : J
  pub stringify_meta : Option String → String
  pub parse_meta : String → Option (Option String)

pub record UsageMaps (J : Type 0) : Type 0 where
  pub usage_by_agent : Option J
  pub usage_by_user : Option J
  pub usage_by_provider : Option J
  pub usage_by_key : Option J
  pub usage_by_team : Option J
  pub usage_snapshot_cursor : Option String

abbrev pub fields : List String
fields = "usageByAgent" ∷ "usageByUser" ∷ "usageByProvider" ∷ "usageByKey" ∷ "usageByTeam" ∷ []

abbrev pub meta_id : String
meta_id = "__meta"

module _ {J : Type 0} (json : JsonText J) where
  abbrev pub no_maps : UsageMaps J
  no_maps = record {
    usage_by_agent = none;
    usage_by_user = none;
    usage_by_provider = none;
    usage_by_key = none;
    usage_by_team = none;
    usage_snapshot_cursor = none;
  }

  -- `maps[field]`
  abbrev pub field_of : UsageMaps J → String → Option J
  field_of maps field =
      if field == "usageByAgent"
      then maps.usage_by_agent
      else if field == "usageByUser"
      then maps.usage_by_user
      else if field == "usageByProvider"
      then maps.usage_by_provider
      else if field == "usageByKey"
      then maps.usage_by_key
      else if field == "usageByTeam"
      then maps.usage_by_team
      else none

  -- `out[field] = value`
  abbrev pub with_field : UsageMaps J → String → J → UsageMaps J
  with_field maps field value =
      if field == "usageByAgent"
      then record maps { usage_by_agent = some value }
      else if field == "usageByUser"
      then record maps { usage_by_user = some value }
      else if field == "usageByProvider"
      then record maps { usage_by_provider = some value }
      else if field == "usageByKey"
      then record maps { usage_by_key = some value }
      else if field == "usageByTeam"
      then record maps { usage_by_team = some value }
      else maps

  abbrev pub save_fields : List String → UsageMaps J → Dict String → Dict String
  save_fields [] maps rows = rows
  save_fields (field ∷ fs) maps rows =
      save_fields fs maps
        (insert field (json.stringify (or_else (field_of maps field) json.empty_object)) rows)

  -- The rows after the transaction of `save`.
  unfoldable pub saved_rows : UsageMaps J → Dict String → Dict String
  saved_rows maps rows =
      insert meta_id (json.stringify_meta maps.usage_snapshot_cursor) (save_fields fields maps rows)

  abbrev pub with_cursor : UsageMaps J → Option String → UsageMaps J
  with_cursor out none = out
  with_cursor out (some cursor) = record out { usage_snapshot_cursor = some cursor }

  abbrev pub load_row : UsageMaps J → String → String → Result String (UsageMaps J)
  load_row out id text =
      if includes fields id
      then elim (json.parse text) [ none ↦ fail id | some value ↦ ok (with_field out id value) ]
      else if id == meta_id
      then elim (json.parse_meta text) [ none ↦ fail id | some c ↦ ok (with_cursor out c) ]
      else ok out

  abbrev pub load_rows : Dict String → UsageMaps J → Result String (UsageMaps J)
  load_rows [] out = ok out
  load_rows ((id, text) ∷ rows) out = elim (load_row out id text) [
    | ok next ↦ load_rows rows next
    | fail e ↦ fail e
  ]

  abbrev pub some_maps : Result String (UsageMaps J) → Result String (Option (UsageMaps J))
  some_maps (ok out) = ok (some out)
  some_maps (fail e) = fail e

  -- A row that is no JSON is an error with the row's id.
  unfoldable pub load : Dict String → Result String (Option (UsageMaps J))
  load [] = ok none
  load (row ∷ rows) = some_maps (load_rows (row ∷ rows) no_maps)
