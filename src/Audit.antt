-- ===== src/Audit.antt =====
-- The store of audit manifests, packages/core/src/manifest/audit-store.ts: the directory `audit` as
-- the list that `auditFiles` gives, which is sorted by name. How a text becomes a manifest, JSON and
-- base64url, and the time in a file's name are arguments.
pub mod Retention
pub mod Pages
pub mod Paging
pub mod Follow
pub mod Tests
use molenkopf.Base.{
  ℕ, zero, suc, ◌+◌, ◌-◌, ◌*◌, ◌/◌, ◌≤◌, ◌<◌, String, ◌≡◌, refl, sym, ap, ◌∙◌, ◌≢◌, ◌↔◌, ◌⊎◌, inl,
  inr, Bool, true, false, ◌&&◌, ◌||◌, not, Option, none, some, List, [], ◌∷◌, ◌++◌, map, arith,
  ◌==◌, eq_iff, eq_refl, ltb, leb, nat_eq, if◌then◌else◌, Bool-cases, Option-cases, or_else,
  or_option, is_some, ◌>>=◌, Result, ok, fail, length, take, drop, filter, find, any, all, All,
  length-append, includes, includes-filter, includes-append, other_than, unique, includes-unique,
  IsUnique, filter-IsUnique, unique-IsUnique, all_mono, all-filter, all-of_includes,
  all-filter_self, all-const, filter-all, Dict, lookup, insert, erase, values, lookup-insert,
  lookup-erase, has, has-erase, all_rows, erase_all, map_values, is_empty, is_space, trim, size,
  every_char, is_digit, is_letter, is_id_char, is_slug,
}
use Prim.Native.Nat.{Ordering}
use Prim.Native.Char.{code}
use molenkopf.Base.{first_chars}
use Prim.Native.String

pub record AuditFile : Type 0 where
  pub name : String
  pub content : String
  pub bytes : ℕ

pub record AuditRetention : Type 0 where
  pub max_files : Option ℕ
  pub max_bytes : Option ℕ
  pub max_age_ms : Option ℕ

-- A limit that is set, `if (limit)`.
abbrev pub limit_of : Option ℕ → Option ℕ
limit_of none = none
limit_of (some zero) = none
limit_of (some (suc n)) = some (suc n)

-- `ageMs <= maxAgeMs`, where `now - fileTime(file)` may be negative.
abbrev pub young : Option ℕ → ℕ → ℕ → Bool
young none now time = true
young (some age) now time = leb now (age + time)

abbrev pub last_files : Option ℕ → List AuditFile → List AuditFile
last_files none kept = kept
last_files (some n) kept = drop (length kept - n) kept

abbrev pub total_bytes : List AuditFile → ℕ
total_bytes [] = 0
total_bytes (f ∷ fs) = f.bytes + total_bytes fs

-- The loop that removes the oldest file until the rest is small enough.
abbrev pub shrink : ℕ → List AuditFile → List AuditFile
shrink max [] = []
shrink max (f ∷ fs) =
    let rest = shrink max fs in if ltb max (total_bytes (f ∷ fs)) then rest else f ∷ fs

abbrev pub small_files : Option ℕ → List AuditFile → List AuditFile
small_files none kept = kept
small_files (some max) kept = shrink max kept

-- The files that are left of those in the directory.
unfoldable pub enforce_retention :
    AuditRetention → (String → ℕ) → ℕ → List AuditFile → List AuditFile
enforce_retention retention file_time now files =
    let young_files =
      filter (λ f. young (limit_of retention.max_age_ms) now (file_time f.name)) files in
    small_files (limit_of retention.max_bytes)
      (last_files (limit_of retention.max_files) young_files)

-- A file takes its place by name, or that of the file with the same name.
abbrev pub insert_file : AuditFile → List AuditFile → List AuditFile
insert_file file [] = file ∷ []
insert_file file (f ∷ fs) =
    let rest = insert_file file fs in
    elim (String.compare file.name f.name) [
      | Ordering.lt ↦ file ∷ f ∷ fs
      | Ordering.eq ↦ file ∷ fs
      | Ordering.gt ↦ f ∷ rest
    ]

-- `/[^a-z0-9._:-]/gi` becomes `_`, once for each of the two units of a character beyond 65535.
abbrev pub safe_chars : String → String
safe_chars String.[] = ""
safe_chars (String.◌∷◌ c s) =
    let rest = safe_chars s in
    if is_id_char (code c)
    then String.◌∷◌ c rest
    else if ltb 65535 (code c)
    then String.◌++◌ "__" rest
    else String.◌++◌ "_" rest

unfoldable pub safe_name : String → String
unfolding first_chars
safe_name value =
    let name = first_chars 96 (safe_chars value) in if is_empty name then "request" else name

-- `timestamp.replace(/[:.]/g, "-")`
abbrev pub dashed : String → String
dashed String.[] = ""
dashed (String.◌∷◌ c s) =
    let rest = dashed s in
    if nat_eq (code c) b':' || nat_eq (code c) b'.' then String.◌++◌ "-" rest else String.◌∷◌ c rest

unfoldable pub file_name : String → String → String
unfolding safe_name
file_name timestamp request_id =
    String.◌++◌ (dashed timestamp) (String.◌++◌ "-" (String.◌++◌ (safe_name request_id) ".json"))

-- `write`, for the text of a manifest that is normalized.
unfoldable pub write :
    AuditRetention
    → (String → ℕ)
    → ℕ
    → String
    → String
    → String
    → ℕ
    → List AuditFile
    → List AuditFile
unfolding enforce_retention file_name
write retention file_time now timestamp request_id content bytes files =
    let file : AuditFile = record {
      name = file_name timestamp request_id;
      content = content;
      bytes = bytes;
    } in
    enforce_retention retention file_time now (insert_file file files)
