-- ===== src/Snapshots/Tests.antt =====
-- The theorems on the usage snapshot, where a JSON value is its own text.
use molenkopf.Base.{String, ◌≡◌, refl, true, false, Option, none, some, List, [], ◌∷◌, ok}
use Prim.Native.String
use text.Mathlib.TextLemmas.{nil-append, cons-append}
use molenkopf.Snapshots.{JsonText, UsageMaps, no_maps, saved_rows, load}
use molenkopf.Snapshots.Laws.{rows_of, ReadsBack, filled, load-saved_rows}
use molenkopf.Snapshots.Flush.{
  Store, absent, Event, recorded, ticked, flushed, step, tick, run_loop, run,
}
use molenkopf.Snapshots.Durable.{IsSafe, durable, run-IsSafe}
use molenkopf.Snapshots.Settles.{is_well_formed, run-IsWellFormed}
use molenkopf.Snapshots.Drains.{drain, recorded-settles}

abbrev cursor_text : Option String → String
cursor_text none = ""
cursor_text (some c) = String.◌++◌ "c" c

abbrev read_cursor : String → Option (Option String)
read_cursor String.[] = some none
read_cursor (String.◌∷◌ c s) = some (some s)

abbrev plain_json : JsonText String
plain_json = record {
  stringify = λ j. j;
  parse = λ t. some t;
  empty_object = "{}";
  stringify_meta = cursor_text;
  parse_meta = read_cursor;
}

-- The maps of one user, with a cursor.
abbrev some_usage : UsageMaps String
some_usage = record (no_maps plain_json) {
  usage_by_user = some "u: 5";
  usage_snapshot_cursor = some "r5";
}

abbrev fresh : Store String
fresh = record {
  heap = λ _. no_maps plain_json;
  rows = saved_rows plain_json (no_maps plain_json) [];
  flushing = false;
  pending = none;
  promise = absent;
  last_error = false;
  closed = false;
  queue = [];
}

plain_json-metas : (c : Option String) → read_cursor (cursor_text c) ≡ some c
plain_json-metas none = refl
plain_json-metas (some c) = rw (cons-append _ "" c, nil-append c)

plain_json-ReadsBack : ReadsBack plain_json
plain_json-ReadsBack = record { values = λ _. refl; metas = plain_json-metas }

load-saved_rows_example :
    load plain_json (saved_rows plain_json some_usage fresh.rows)
    ≡ ok (some (filled plain_json some_usage))
load-saved_rows_example =
    load-saved_rows plain_json plain_json-ReadsBack some_usage fresh.rows
      (rows_of (no_maps plain_json))

fresh-IsSafe : IsSafe plain_json 0 fresh
fresh-IsSafe = record {
  table = rows_of (no_maps plain_json);
  pending_of = refl;
  queue_of = refl;
  kept = durable refl;
}

-- A save fails, and the counters change again before the failure is noticed.
abbrev some_events : List (Event plain_json)
some_events =
    recorded 0 some_usage ∷ ticked false ∷ recorded 0 some_usage ∷ flushed true ∷ ticked true ∷ []

run-IsSafe_example : IsSafe plain_json 0 (run plain_json some_events fresh)
run-IsSafe_example = run-IsSafe plain_json 0 some_events fresh refl fresh-IsSafe

run-IsWellFormed_example : is_well_formed plain_json (run plain_json some_events fresh) ≡ true
run-IsWellFormed_example = run-IsWellFormed plain_json some_events fresh refl

recorded-settles_example :
    (drain plain_json 2 (step plain_json (recorded 0 some_usage) fresh)).rows
    ≡ saved_rows plain_json some_usage []
recorded-settles_example =
    recorded-settles plain_json 0 2 some_usage fresh fresh-IsSafe refl refl refl refl

-- With two objects a failed save puts the older one back in place of the newer one.
abbrev two_objects : List (Event plain_json)
two_objects = recorded 0 some_usage ∷ ticked false ∷ recorded 1 some_usage ∷ ticked true ∷ []

newer-dropped : (run plain_json two_objects fresh).pending ≡ some 0
unfolding run step tick run_loop
newer-dropped = refl
