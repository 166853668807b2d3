-- ===== src/Audit/Follow.antt =====
-- Following the cursors from page to page.
use molenkopf.Base.{
  ℕ, zero, suc, String, ◌≡◌, refl, sym, ap, ◌∙◌, inl, inr, Bool, true, false, not, Option, none,
  some, List, [], ◌∷◌, ◌++◌, arith, ◌==◌, eq_iff, ltb, if◌then◌else◌, Bool-cases, Result, ok, fail,
  length, filter, includes, IsUnique, filter-IsUnique, filter-all, is_empty,
}
use mathlib.Core.Path.{subst}
use molenkopf.Audit.{AuditFile}
use molenkopf.Audit.Pages.{
  Cursors, PageOptions, AuditPage, CursorError, Walk, page_limit, walk, reversed_onto, ordered,
  after, start_after, page_start, next_of, quarantine, list_page,
}
use molenkopf.Audit.Paging.{
  names, kept, after-later, IsCut, after-shorter, walk-finished, walk-cut, IsCut-with_room,
}

-- What the program relies on: a cursor has characters and gives its file's name back.
pub record IsReadBack (cursors : Cursors) : Type 0 where
  pub filled : (name : String) → is_empty (cursors.encode_cursor name) ≡ false
  pub decoded : (name : String) → cursors.decode_cursor (cursors.encode_cursor name) ≡ some name

module _ {M : Type 0} (read : String → Option M) (cursors : Cursors) (limit : Option ℕ)
    (newest_first : Bool) (p : Option (M → Bool)) where
  abbrev asked : Option String → PageOptions M
  asked cursor = record { limit = limit; cursor = cursor; newest_first = newest_first; filter = p }

  abbrev prepend : List M → Result CursorError (List M) → Result CursorError (List M)
  prepend ms (ok rest) = ok (ms ++ rest)
  prepend ms (fail e) = fail e

  abbrev joined :
      (String → List AuditFile → Result CursorError (List M))
      → List M
      → Option String
      → List AuditFile
      → Result CursorError (List M)
  joined next ms none files = ok ms
  joined next ms (some cursor) files = prepend ms (next cursor files)

  abbrev continued :
      (String → List AuditFile → Result CursorError (List M))
      → Result CursorError (AuditPage M) × List AuditFile
      → Result CursorError (List M)
  continued next (ok page, files) = joined next page.items page.next_cursor files
  continued next (fail e, files) = fail e

  -- The items of at most so many pages, each asked for with the cursor of the one before.
  unfoldable pub follow : ℕ → Option String → List AuditFile → Result CursorError (List M)
  unfolding list_page
  follow zero cursor files = ok []
  follow (suc n) cursor files =
      continued (λ next. follow n (some next)) (list_page read cursors (asked cursor) files)

  reversed_onto-quarantine :
      (cs : List String) (fs rest : List AuditFile)
      → reversed_onto read cursors (quarantine read cursors cs fs) (quarantine read cursors cs rest)
        ≡ quarantine read cursors cs (reversed_onto read cursors fs rest)
  reversed_onto-quarantine cs [] rest = refl
  reversed_onto-quarantine cs (f ∷ fs) rest = elim (Bool-cases (includes cs f.name)) [
    | inl e ↦ rw (e) (
        subst
          (λ (r : List AuditFile).
            reversed_onto read cursors (quarantine read cursors cs fs) r
            ≡ quarantine read cursors cs (reversed_onto read cursors fs (f ∷ rest)))
          (rw (e)) (reversed_onto-quarantine cs fs (f ∷ rest)))
    | inr e ↦ rw (e) (
        subst
          (λ (r : List AuditFile).
            reversed_onto read cursors (quarantine read cursors cs fs) r
            ≡ quarantine read cursors cs (reversed_onto read cursors fs (f ∷ rest)))
          (rw (e)) (reversed_onto-quarantine cs fs (f ∷ rest)))
  ]

  ordered-quarantine :
      (cs : List String) (b : Bool) (fs : List AuditFile)
      → ordered read cursors b (quarantine read cursors cs fs)
        ≡ quarantine read cursors cs (ordered read cursors b fs)
  ordered-quarantine cs true fs = reversed_onto-quarantine cs fs []
  ordered-quarantine cs false fs = refl

  after-quarantine_later :
      (cs : List String) (x : String) (f : AuditFile) (fs tail : List AuditFile)
      → (f.name == x) ≡ false
      → after read cursors x (quarantine read cursors cs fs)
        ≡ some (quarantine read cursors cs tail)
      → after read cursors x (quarantine read cursors cs (f ∷ fs))
        ≡ some (quarantine read cursors cs tail)
  after-quarantine_later cs x f fs tail g h = elim (Bool-cases (includes cs f.name)) [
    | inl c ↦ rw (c) h
    | inr c ↦ rw (c, g) h
  ]

  after-quarantine :
      (cs : List String) (x : String) (fs tail : List AuditFile)
      → includes cs x ≡ false
      → after read cursors x fs ≡ some tail
      → after read cursors x (quarantine read cursors cs fs)
        ≡ some (quarantine read cursors cs tail)
  after-quarantine cs x [] tail e h = absurd (ground (arith))
  after-quarantine cs x (f ∷ fs) tail e h = elim (Bool-cases (f.name == x)) [
    | inl g ↦
        let same : fs ≡ tail = ground (arith) in
        let clean : includes cs f.name ≡ false = ground (arith, eq_iff f.name x) in
        rw (clean, g) (ap (λ (t : List AuditFile). some (quarantine read cursors cs t)) same)
    | inr g ↦
        after-quarantine_later cs x f fs tail g (after-quarantine cs x fs tail e (ground (arith)))
  ]

  names-quarantine :
      (cs : List String) (fs : List AuditFile)
      → names (quarantine read cursors cs fs) ≡ filter (λ n. not (includes cs n)) (names fs)
  names-quarantine cs [] = refl
  names-quarantine cs (f ∷ fs) = ground (arith, names-quarantine cs fs)

  page_limit-suc : (l : Option ℕ) → (room : ℕ) × (page_limit read cursors l ≡ suc room)
  page_limit-suc none = (99, refl)
  page_limit-suc (some zero) = (0, refl)
  page_limit-suc (some (suc n)) = elim (Bool-cases (ltb 1000 (suc n))) [
    | inl e ↦ (999, rw (e))
    | inr e ↦ (n, rw (e))
  ]

  -- Where a page starts, the files stand in their order and without a name twice.
  record IsStart (fs rest : List AuditFile) : Type 0 where
    once : IsUnique (names rest)
    later :
        (x : String) (tail : List AuditFile)
        → after read cursors x rest ≡ some tail
        → after read cursors x fs ≡ some tail

  after-IsStart :
      (x : String) (fs rest : List AuditFile)
      → IsUnique (names fs)
      → after read cursors x fs ≡ some rest
      → IsStart fs rest
  after-IsStart x [] rest u h = absurd (ground (arith))
  after-IsStart x (f ∷ fs) rest u h = elim (Bool-cases (f.name == x)) [
    | inl g ↦
        let same : fs ≡ rest = ground (arith) in
        subst (λ (r : List AuditFile). IsStart (f ∷ fs) r) same
          (record { once = u.1; later = λ y tail k. after-later read cursors f fs tail y u.0 k })
    | inr g ↦
        let start = after-IsStart x fs rest u.1 (ground (arith)) in
        record {
          once = start.once;
          later = λ y tail k. after-later read cursors f fs tail y u.0 (start.later y tail k);
        }
  ]

  whole-IsStart :
      (fs rest : List AuditFile)
      → IsUnique (names fs)
      → ◌≡◌ {A = Option (List AuditFile)} (some fs) (some rest)
      → IsStart fs rest
  whole-IsStart fs rest u h =
      let same : fs ≡ rest = ground (arith) in
      subst (λ (r : List AuditFile). IsStart fs r) same (record { once = u; later = λ y tail k. k })

  start_after-IsStart :
      (name : Option String) (fs rest : List AuditFile)
      → IsUnique (names fs)
      → start_after read cursors name fs ≡ some rest
      → IsStart fs rest
  start_after-IsStart none fs rest u h = absurd (ground (arith))
  start_after-IsStart (some x) fs rest u h = after-IsStart x fs rest u h

  page_start-IsStart :
      (cursor : Option String) (fs rest : List AuditFile)
      → IsUnique (names fs)
      → page_start read cursors cursor fs ≡ some rest
      → IsStart fs rest
  page_start-IsStart none fs rest u h = whole-IsStart fs rest u h
  page_start-IsStart (some c) fs rest u h = elim (Bool-cases (is_empty c)) [
    | inl e ↦ whole-IsStart fs rest u (
        sym
          (ap (λ b. if b then some fs else start_after read cursors (cursors.decode_cursor c) fs) e)
        ∙ h)
    | inr e ↦ start_after-IsStart (cursors.decode_cursor c) fs rest u (
        sym
          (ap (λ b. if b then some fs else start_after read cursors (cursors.decode_cursor c) fs) e)
        ∙ h)
  ]

  next_of-false : (last : Option String) → next_of read cursors false last ≡ none
  next_of-false none = refl
  next_of-false (some x) = refl

  -- The next page starts with what the walk has left.
  next-start :
      IsReadBack cursors
      → (fs rest : List AuditFile) (w : Walk M)
      → IsStart (ordered read cursors newest_first fs) rest
      → (c : IsCut read cursors p rest w)
      → page_start read cursors
          (some (cursors.encode_cursor c.last_name))
          (ordered read cursors newest_first (quarantine read cursors w.corrupt_files fs))
        ≡ some c.tail
  next-start rb fs rest w start c =
      rw
        (
          rb.filled c.last_name,
          rb.decoded c.last_name,
          ordered-quarantine w.corrupt_files newest_first fs,
        )
        (after-quarantine w.corrupt_files c.last_name (ordered read cursors newest_first fs) c.tail
            c.not_corrupt (start.later c.last_name c.tail c.here)
          ∙ ap (λ (t : List AuditFile). some t)
              (filter-all (λ (g : AuditFile). not (includes w.corrupt_files g.name)) c.tail
                c.clean))

  follow-page :
      (n : ℕ) (cursor : Option String) (files rest : List AuditFile) (room : ℕ)
      → page_limit read cursors limit ≡ suc room
      → page_start read cursors cursor (ordered read cursors newest_first files) ≡ some rest
      → follow (suc n) cursor files ≡ (
          let w = walk read cursors p (suc room) rest in
          joined
            (λ next. follow n (some next))
            w.items
            (next_of read cursors w.more w.last_file)
            (quarantine read cursors w.corrupt_files files))
  unfolding follow list_page
  follow-page n cursor files rest room e h = rw (h, e)

  quarantine-once :
      (cs : List String) (files : List AuditFile)
      → IsUnique (names (ordered read cursors newest_first files))
      → IsUnique (names (ordered read cursors newest_first (quarantine read cursors cs files)))
  quarantine-once cs files u =
      rw
        (
          ordered-quarantine cs newest_first files,
          names-quarantine cs (ordered read cursors newest_first files),
        )
        (filter-IsUnique (λ n. not (includes cs n))
          (names (ordered read cursors newest_first files)) u)

  abbrev fine : List M → Result CursorError (List M)
  fine ms = ok ms

  cut_next :
      (more : Bool) (last_file : Option String) (x : String)
      → more ≡ true
      → last_file ≡ some x
      → next_of read cursors more last_file ≡ some (cursors.encode_cursor x)
  cut_next more last_file x m l = rw (m, l)

  -- A page and, where files are left, the pages after it.
  follow-walk :
      IsReadBack cursors
      → (n : ℕ) (files rest : List AuditFile) (room : ℕ)
      → IsUnique (names (ordered read cursors newest_first files))
      → IsStart (ordered read cursors newest_first files) rest
      → ((c : IsCut read cursors p rest (walk read cursors p (suc room) rest))
            (next_files : List AuditFile)
          → IsUnique (names (ordered read cursors newest_first next_files))
          → page_start read cursors
              (some (cursors.encode_cursor c.last_name))
              (ordered read cursors newest_first next_files)
            ≡ some c.tail
          → follow n (some (cursors.encode_cursor c.last_name)) next_files
            ≡ ok (kept read cursors p c.tail))
      → (let w = walk read cursors p (suc room) rest in
          joined
            (λ next. follow n (some next))
            w.items
            (next_of read cursors w.more w.last_file)
            (quarantine read cursors w.corrupt_files files))
        ≡ ok (kept read cursors p rest)
  follow-walk rb n files rest room u start ih =
      let w = walk read cursors p (suc room) rest in
      let q = quarantine read cursors w.corrupt_files files in
      elim (Bool-cases w.more) [
        | inl m ↦
            let c =
              IsCut-with_room read cursors p room rest w
                (walk-cut read cursors p (suc room) rest start.once m) in
            ap (λ d. joined (λ next. follow n (some next)) w.items d q)
              (cut_next w.more w.last_file c.last_name m c.is_last)
            ∙ ap (prepend w.items) (
                ih c q (quarantine-once w.corrupt_files files u)
                  (next-start rb files rest w start c))
            ∙ ap (λ (ms : List M). fine ms) (sym c.split)
        | inr m ↦
            ap (λ d. joined (λ next. follow n (some next)) w.items d q)
              (ap (λ b. next_of read cursors b w.last_file) m ∙ next_of-false w.last_file)
            ∙ ap (λ (ms : List M). fine ms) (sym (walk-finished read cursors p (suc room) rest m))
      ]

  follow-kept :
      IsReadBack cursors
      → (n : ℕ) (cursor : Option String) (files rest : List AuditFile)
      → IsUnique (names (ordered read cursors newest_first files))
      → page_start read cursors cursor (ordered read cursors newest_first files) ≡ some rest
      → ltb (length rest) n ≡ true
      → follow n cursor files ≡ ok (kept read cursors p rest)
  follow-kept rb zero cursor files rest u h l = absurd (ground (arith))
  follow-kept rb (suc n) cursor files rest u h l =
      let (room, e) = page_limit-suc limit in
      follow-page n cursor files rest room e h
      ∙ follow-walk rb n files rest room u
          (page_start-IsStart cursor (ordered read cursors newest_first files) rest u h)
          (λ c next_files v k.
            follow-kept rb n (some (cursors.encode_cursor c.last_name)) next_files c.tail v k
              (ground (arith, after-shorter read cursors c.last_name rest c.tail c.here)))

  -- Where no two files have the same name and each cursor gives its file's name back, following the
  -- cursors from the first page on, for more pages than there are files, gives page by page, each once
  -- and in their order, the manifests that can be read and that the filter lets through, whatever the
  -- limit of a page; so the files that are put in quarantine on the way make no later page skip or
  -- repeat one.
  pub follow-all :
      IsReadBack cursors
      → (n : ℕ) (files : List AuditFile)
      → IsUnique (names (ordered read cursors newest_first files))
      → ltb (length (ordered read cursors newest_first files)) n ≡ true
      → follow n none files ≡ ok (kept read cursors p (ordered read cursors newest_first files))
  follow-all rb n files u l =
      follow-kept rb n none files (ordered read cursors newest_first files) u refl l
