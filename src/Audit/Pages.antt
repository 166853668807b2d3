-- ===== src/Audit/Pages.antt =====
-- Pages of audit manifests, `listPage` and `list` of packages/core/src/manifest/audit-store.ts, for a
-- type `M` of manifests and a reader of the text of a file.
use molenkopf.Base.{
  ℕ, zero, suc, String, Bool, true, false, not, Option, none, some, List, [], ◌∷◌, ◌==◌, ltb,
  if◌then◌else◌, or_option, is_some, Result, ok, fail, length, filter, includes, is_empty,
}
use molenkopf.Audit.{AuditFile}

pub record Cursors : Type 0 where
  pub encode_cursor : String → String
  pub decode_cursor : String → Option String

pub record PageOptions (M : Type 0) : Type 0 where
  pub limit : Option ℕ
  pub cursor : Option String
  pub newest_first : Bool
  pub filter : Option (M → Bool)

pub record AuditPage (M : Type 0) : Type 0 where
  pub items : List M
  pub next_cursor : Option String
  pub skipped_corrupt : ℕ

pub data CursorError : Type 0 where
  invalid_cursor : CursorError

-- What a file is for a page: a manifest of the page, one that the filter leaves out, or no manifest.
pub data Verdict (M : Type 0) : Type 0 where
  listed : M → Verdict M
  left_out : Verdict M
  corrupt : Verdict M

-- What the loop over the files has found: the items, the corrupt files, the last file that gave an
-- item, and whether files are left.
pub record Walk (M : Type 0) : Type 0 where
  pub items : List M
  pub corrupt_files : List String
  pub last_file : Option String
  pub more : Bool

module _ {M : Type 0} (read : String → Option M) (cursors : Cursors) where
  -- `Math.max(1, Math.min(1000, limit ?? 100))`
  abbrev pub page_limit : Option ℕ → ℕ
  page_limit none = 100
  page_limit (some zero) = 1
  page_limit (some (suc n)) = if ltb 1000 (suc n) then 1000 else suc n

  abbrev pub passes : Option (M → Bool) → M → Bool
  passes none m = true
  passes (some p) m = p m

  abbrev pub judged : Option (M → Bool) → Option M → Verdict M
  judged p none = corrupt
  judged p (some m) = if passes p m then listed m else left_out

  abbrev pub verdict : Option (M → Bool) → AuditFile → Verdict M
  verdict p file = judged p (read file.content)

  abbrev pub is_corrupt : AuditFile → Bool
  is_corrupt file = not (is_some (read file.content))

  -- The walk with one file more in front.
  abbrev pub with_item : M → AuditFile → Walk M → Walk M
  with_item m file w = record w {
    items = m ∷ w.items;
    last_file = or_option w.last_file (some file.name);
  }

  abbrev pub with_corrupt : AuditFile → Walk M → Walk M
  with_corrupt file w = record w { corrupt_files = file.name ∷ w.corrupt_files }

  -- The loop, with room for so many items.
  unfoldable pub walk : Option (M → Bool) → ℕ → List AuditFile → Walk M
  walk p zero [] = record { items = []; corrupt_files = []; last_file = none; more = false }
  walk p zero (f ∷ fs) = record { items = []; corrupt_files = []; last_file = none; more = true }
  walk p (suc room) [] = record { items = []; corrupt_files = []; last_file = none; more = false }
  walk p (suc room) (f ∷ fs) = elim (verdict p f) [
    | listed m ↦ with_item m f (walk p room fs)
    | left_out ↦ walk p (suc room) fs
    | corrupt ↦ with_corrupt f (walk p (suc room) fs)
  ]

  abbrev pub reversed_onto : List AuditFile → List AuditFile → List AuditFile
  reversed_onto [] rest = rest
  reversed_onto (f ∷ fs) rest = reversed_onto fs (f ∷ rest)

  abbrev pub ordered : Bool → List AuditFile → List AuditFile
  ordered newest_first fs = if newest_first then reversed_onto fs [] else fs

  -- The files after the one with the name; `none` where no file has it.
  abbrev pub after : String → List AuditFile → Option (List AuditFile)
  after name [] = none
  after name (f ∷ fs) = if f.name == name then some fs else after name fs

  abbrev pub start_after : Option String → List AuditFile → Option (List AuditFile)
  start_after none fs = none
  start_after (some name) fs = after name fs

  -- The files from which a page starts; a cursor that is no text of a file's name is an error.
  abbrev pub page_start : Option String → List AuditFile → Option (List AuditFile)
  page_start none fs = some fs
  page_start (some cursor) fs =
      if is_empty cursor then some fs else start_after (cursors.decode_cursor cursor) fs

  abbrev pub next_of : Bool → Option String → Option String
  next_of more none = none
  next_of true (some name) = some (cursors.encode_cursor name)
  next_of false (some name) = none

  -- A corrupt file is renamed, so that `auditFiles` no longer gives it.
  abbrev pub quarantine : List String → List AuditFile → List AuditFile
  quarantine names files = filter (λ f. not (includes names f.name)) files

  abbrev pub page_of : Walk M → AuditPage M
  page_of w = record {
    items = w.items;
    next_cursor = next_of w.more w.last_file;
    skipped_corrupt = length w.corrupt_files;
  }

  unfoldable pub list_page :
      PageOptions M → List AuditFile → Result CursorError (AuditPage M) × List AuditFile
  unfolding walk
  list_page options files = elim (page_start options.cursor (ordered options.newest_first files)) [
    | none ↦ (fail invalid_cursor, files)
    | some rest ↦
        let w = walk options.filter (page_limit options.limit) rest in
        (ok (page_of w), quarantine w.corrupt_files files)
  ]

  abbrev pub readable : List AuditFile → List M
  readable [] = []
  readable (f ∷ fs) = elim (read f.content) [ none ↦ readable fs | some m ↦ m ∷ readable fs ]

  -- Every readable manifest, and the files that are left.
  unfoldable pub list : List AuditFile → List M × List AuditFile
  list files = (readable files, filter (λ f. not (is_corrupt f)) files)

  abbrev pub first_item : Result CursorError (AuditPage M) → Option M
  first_item (fail e) = none
  first_item (ok page) = elim page.items [ [] ↦ none | m ∷ ms ↦ some m ]

  unfoldable pub latest : List AuditFile → Option M × List AuditFile
  unfolding list_page
  latest files =
      let (page, rest) =
        list_page (record { limit = some 1; cursor = none; newest_first = true; filter = none })
          files in
      (first_item page, rest)
