-- ===== src/Snapshots/Laws.antt =====
-- What `load` reads from the rows that `save` wrote.
use molenkopf.Base.{String, ◌≡◌, refl, ap, Option, none, some, [], or_else, ok, Dict}
use molenkopf.Snapshots.{JsonText, UsageMaps, saved_rows, with_cursor, load}

module _ {J : Type 0} (json : JsonText J) where
  -- The rows of the table: none, or those of an earlier save.
  pub data IsTable : Dict String → Type 0 where
    no_rows : IsTable []
    rows_of : (maps : UsageMaps J) → IsTable (saved_rows json maps [])

  pub saved_rows-again :
      (maps : UsageMaps J) (rows : Dict String)
      → IsTable rows
      → saved_rows json maps rows ≡ saved_rows json maps []
  unfolding saved_rows
  saved_rows-again maps _ no_rows = refl
  saved_rows-again maps _ (rows_of earlier) = refl

  -- What the program relies on: JSON texts are read back.
  pub record ReadsBack : Type 0 where
    pub values : (j : J) → json.parse (json.stringify j) ≡ some j
    pub metas : (c : Option String) → json.parse_meta (json.stringify_meta c) ≡ some c

  -- The maps with `{}` for the missing ones.
  abbrev pub filled : UsageMaps J → UsageMaps J
  filled maps = record {
    usage_by_agent = some (or_else maps.usage_by_agent json.empty_object);
    usage_by_user = some (or_else maps.usage_by_user json.empty_object);
    usage_by_provider = some (or_else maps.usage_by_provider json.empty_object);
    usage_by_key = some (or_else maps.usage_by_key json.empty_object);
    usage_by_team = some (or_else maps.usage_by_team json.empty_object);
    usage_snapshot_cursor = maps.usage_snapshot_cursor;
  }

  with_cursor-none :
      (out : UsageMaps J) (c : Option String)
      → out.usage_snapshot_cursor ≡ none
      → with_cursor json out c ≡ record out { usage_snapshot_cursor = c }
  with_cursor-none out none h = ap (λ c. record out { usage_snapshot_cursor = c }) h
  with_cursor-none out (some c) h = refl

  -- After a save over the rows of an earlier one, or over none, `load` gives the maps that were saved,
  -- with an empty object for each that was missing, if JSON texts are read back.
  pub load-saved_rows :
      ReadsBack
      → (maps : UsageMaps J) (rows : Dict String) → IsTable rows
      → load json (saved_rows json maps rows) ≡ ok (some (filled maps))
  unfolding load saved_rows
  load-saved_rows h maps rows t =
      rw
        (
          saved_rows-again maps rows t,
          h.values (or_else maps.usage_by_agent json.empty_object),
          h.values (or_else maps.usage_by_user json.empty_object),
          h.values (or_else maps.usage_by_provider json.empty_object),
          h.values (or_else maps.usage_by_key json.empty_object),
          h.values (or_else maps.usage_by_team json.empty_object),
          h.metas maps.usage_snapshot_cursor,
        )
        (ap (λ out. ok (some out))
          (with_cursor-none (record (filled maps) { usage_snapshot_cursor = none })
            maps.usage_snapshot_cursor refl))
