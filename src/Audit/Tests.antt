-- ===== src/Audit/Tests.antt =====
-- The theorems on the audit at three files, one of them corrupt.
use molenkopf.Base.{
  ℕ, String, ◌≡◌, refl, true, Option, none, some, List, [], ◌∷◌, if◌then◌else◌, ok, is_empty,
}
use Prim.Native.String
use text.Mathlib.TextLemmas.{cons-append, nil-append}
use molenkopf.Base.{first_chars}
use molenkopf.Audit.{AuditFile, AuditRetention, enforce_retention, write, file_name, safe_name}
use molenkopf.Audit.Retention.{IsRetained, enforce_retention-IsRetained}
use molenkopf.Audit.Pages.{Cursors, list_page, walk, ordered}
use molenkopf.Audit.Paging.{kept}
use molenkopf.Audit.Follow.{IsReadBack, follow, follow-all}

abbrev a_file : String → String → ℕ → AuditFile
a_file name content bytes = record { name = name; content = content; bytes = bytes }

abbrev three_files : List AuditFile
three_files = a_file "1.json" "a" 10 ∷ a_file "2.json" "" 0 ∷ a_file "3.json" "c" 30 ∷ []

abbrev a_retention : AuditRetention
a_retention = record { max_files = some 2; max_bytes = some 35; max_age_ms = none }

abbrev no_time : String → ℕ
no_time name = 0

enforce_retention_example :
    IsRetained a_retention no_time 9 three_files
      (enforce_retention a_retention no_time 9 three_files)
enforce_retention_example = enforce_retention-IsRetained a_retention no_time 9 three_files

written :
    write
      (record a_retention { max_bytes = none })
      no_time
      9
      "2026-06-21T10:00:00.000Z"
      "r/1"
      "d"
      20
      three_files
    ≡ a_file "2026-06-21T10-00-00-000Z-r_1.json" "d" 20 ∷ a_file "3.json" "c" 30 ∷ []
unfolding write enforce_retention file_name safe_name first_chars
written = refl

abbrev read_text : String → Option String
read_text content = if is_empty content then none else some content

abbrev name_behind : String → Option String
name_behind String.[] = none
name_behind (String.◌∷◌ c s) = some s

abbrev plain_cursors : Cursors
plain_cursors = record { encode_cursor = λ name. String.◌++◌ "c" name; decode_cursor = name_behind }

plain_cursors-IsReadBack : IsReadBack plain_cursors
plain_cursors-IsReadBack = record {
  filled = λ name. rw (cons-append _ "" name) refl;
  decoded = λ name. rw (cons-append _ "" name, nil-append name) refl;
}

follow-all_example :
    follow read_text plain_cursors (some 1) true none 4 none three_files
    ≡ ok (kept read_text plain_cursors none (ordered read_text plain_cursors true three_files))
follow-all_example =
    follow-all read_text plain_cursors (some 1) true none plain_cursors-IsReadBack 4 three_files
      (refl, (refl, (refl, tt))) refl

-- The first page of one manifest, the newest one first.
newest_page :
    (list_page read_text plain_cursors
      (record { limit = some 1; cursor = none; newest_first = true; filter = none })
      three_files).0
    ≡ ok (record { items = "c" ∷ []; next_cursor = some "c3.json"; skipped_corrupt = 0 })
unfolding list_page walk
newest_page = refl
