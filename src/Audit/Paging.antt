-- ===== src/Audit/Paging.antt =====
-- One page of the audit and what is left for the next one.
use molenkopf.Base.{
  ℕ, zero, suc, String, ◌≡◌, refl, sym, ap, ◌∙◌, ◌⊎◌, inl, inr, Bool, true, false, not, Option,
  none, some, List, [], ◌∷◌, ◌++◌, arith, ◌==◌, eq_iff, eq_refl, ltb, nat_eq, Bool-cases, or_option,
  length, all, includes, IsUnique, all-const,
}
use mathlib.Core.Path.{subst}
use molenkopf.Audit.{AuditFile}
use molenkopf.Audit.Pages.{
  Cursors, Verdict, listed, left_out, corrupt, Walk, verdict, with_item, with_corrupt, walk, after,
}

-- Whatever the verdict is, it is one of the three.
abbrev pub Cases : {M : Type 0} → Verdict M → Type 0
Cases {M = M} v = (v ≡ left_out) ⊎ ((v ≡ corrupt) ⊎ ((m : M) × (v ≡ listed m)))

Verdict-Cases : {M : Type 0} (v : Verdict M) → Cases v
Verdict-Cases (listed m) = inr (inr (m, refl))
Verdict-Cases left_out = inl refl
Verdict-Cases corrupt = inr (inl refl)

abbrev pub names : List AuditFile → List String
names [] = []
names (f ∷ fs) = f.name ∷ names fs

module _ {M : Type 0} (read : String → Option M) (cursors : Cursors) where
  -- The manifests of the files that the filter lets through.
  abbrev pub kept : Option (M → Bool) → List AuditFile → List M
  kept p [] = []
  kept p (f ∷ fs) = elim (verdict read cursors p f) [
    | listed m ↦ m ∷ kept p fs
    | left_out ↦ kept p fs
    | corrupt ↦ kept p fs
  ]

  kept-listed :
      (p : Option (M → Bool)) (f : AuditFile) (fs : List AuditFile) (m : M)
      → verdict read cursors p f ≡ listed m
      → kept p (f ∷ fs) ≡ m ∷ kept p fs
  kept-listed p f fs m e = rw (kept, e)

  kept-left_out :
      (p : Option (M → Bool)) (f : AuditFile) (fs : List AuditFile)
      → verdict read cursors p f ≡ left_out
      → kept p (f ∷ fs) ≡ kept p fs
  kept-left_out p f fs e = rw (kept, e)

  kept-corrupt :
      (p : Option (M → Bool)) (f : AuditFile) (fs : List AuditFile)
      → verdict read cursors p f ≡ corrupt
      → kept p (f ∷ fs) ≡ kept p fs
  kept-corrupt p f fs e = rw (kept, e)

  walk-listed :
      (p : Option (M → Bool)) (room : ℕ) (f : AuditFile) (fs : List AuditFile) (m : M)
      → verdict read cursors p f ≡ listed m
      → walk read cursors p (suc room) (f ∷ fs)
        ≡ with_item read cursors m f (walk read cursors p room fs)
  unfolding walk
  walk-listed p room f fs m e = rw (walk, e)

  walk-left_out :
      (p : Option (M → Bool)) (room : ℕ) (f : AuditFile) (fs : List AuditFile)
      → verdict read cursors p f ≡ left_out
      → walk read cursors p (suc room) (f ∷ fs) ≡ walk read cursors p (suc room) fs
  unfolding walk
  walk-left_out p room f fs e = rw (walk, e)

  walk-corrupt :
      (p : Option (M → Bool)) (room : ℕ) (f : AuditFile) (fs : List AuditFile)
      → verdict read cursors p f ≡ corrupt
      → walk read cursors p (suc room) (f ∷ fs)
        ≡ with_corrupt read cursors f (walk read cursors p (suc room) fs)
  unfolding walk
  walk-corrupt p room f fs e = rw (walk, e)

  pub walk-finished :
      (p : Option (M → Bool)) (room : ℕ) (fs : List AuditFile)
      → (walk read cursors p room fs).more ≡ false
      → kept p fs ≡ (walk read cursors p room fs).items
  unfolding walk
  walk-finished p zero [] h = refl
  walk-finished p zero (f ∷ fs) h = absurd (ground (arith))
  walk-finished p (suc room) [] h = refl
  walk-finished p (suc room) (f ∷ fs) h = elim (Verdict-Cases (verdict read cursors p f)) [
    | inl e ↦
        kept-left_out p f fs e
        ∙ walk-finished p (suc room) fs (sym (ap (λ w. w.more) (walk-left_out p room f fs e)) ∙ h)
        ∙ sym (ap (λ w. w.items) (walk-left_out p room f fs e))
    | inr c ↦ elim c [
      | inl e ↦
          kept-corrupt p f fs e
          ∙ walk-finished p (suc room) fs (sym (ap (λ w. w.more) (walk-corrupt p room f fs e)) ∙ h)
          ∙ sym (ap (λ w. w.items) (walk-corrupt p room f fs e))
      | inr (m, e) ↦
          kept-listed p f fs m e
          ∙ ap (λ ms. m ∷ ms)
              (walk-finished p room fs (sym (ap (λ w. w.more) (walk-listed p room f fs m e)) ∙ h))
          ∙ sym (ap (λ w. w.items) (walk-listed p room f fs m e))
    ]
  ]

  -- The walk was cut off after a file: what is left comes after it and is not touched by the
  -- quarantine.
  pub record IsCut (p : Option (M → Bool)) (fs : List AuditFile) (w : Walk M) : Type 0 where
    pub last_name : String
    pub tail : List AuditFile
    pub is_last : w.last_file ≡ some last_name
    pub here : after read cursors last_name fs ≡ some tail
    pub split : kept p fs ≡ w.items ++ kept p tail
    pub clean : all (λ (g : AuditFile). not (includes w.corrupt_files g.name)) tail ≡ true
    pub not_corrupt : includes w.corrupt_files last_name ≡ false

  -- A walk without room stops at once.
  pub record IsStopped (p : Option (M → Bool)) (fs : List AuditFile) (w : Walk M) : Type 0 where
    no_item : w.items ≡ []
    none_corrupt : w.corrupt_files ≡ []
    no_last : w.last_file ≡ none

  after-listed :
      (x : String) (fs tail : List AuditFile)
      → after read cursors x fs ≡ some tail
      → includes (names fs) x ≡ true
  after-listed x [] tail h = absurd (ground (arith))
  after-listed x (f ∷ fs) tail h = ground (arith, after-listed x fs tail)

  others-clean :
      (n : String) (fs : List AuditFile)
      → includes (names fs) n ≡ false
      → all (λ (g : AuditFile). not (n == g.name)) fs ≡ true
  others-clean n [] h = refl
  others-clean n (f ∷ fs) h = ground (arith, others-clean n fs, eq_iff n f.name, eq_iff f.name n)

  after-others :
      (n x : String) (fs tail : List AuditFile)
      → after read cursors x fs ≡ some tail
      → includes (names fs) n ≡ false
      → all (λ (g : AuditFile). not (n == g.name)) tail ≡ true
  after-others n x [] tail h k = absurd (ground (arith))
  after-others n x (f ∷ fs) tail h k = elim (Bool-cases (f.name == x)) [
    | inl e ↦ ground (arith, others-clean n fs)
    | inr e ↦ after-others n x fs tail (ground (arith)) (ground (arith))
  ]

  pub after-shorter :
      (x : String) (fs tail : List AuditFile)
      → after read cursors x fs ≡ some tail
      → ltb (length tail) (length fs) ≡ true
  after-shorter x [] tail h = absurd (ground (arith))
  after-shorter x (f ∷ fs) tail h = elim (Bool-cases (f.name == x)) [
    | inl e ↦ ground (arith)
    | inr e ↦ ground (arith, after-shorter x fs tail (ground (arith)))
  ]

  pub after-later :
      (f : AuditFile) (fs tail : List AuditFile) (x : String)
      → includes (names fs) f.name ≡ false
      → after read cursors x fs ≡ some tail
      → after read cursors x (f ∷ fs) ≡ some tail
  after-later f fs tail x u h = elim (Bool-cases (f.name == x)) [
    | inl e ↦ absurd (ground (arith, eq_iff f.name x, after-listed x fs tail h))
    | inr e ↦ rw (e) h
  ]

  IsCut-later :
      (p : Option (M → Bool)) (f : AuditFile) (fs : List AuditFile) (w : Walk M)
      → IsUnique (names (f ∷ fs))
      → kept p (f ∷ fs) ≡ kept p fs
      → IsCut p fs w
      → IsCut p (f ∷ fs) w
  IsCut-later p f fs w u k c = record {
    last_name = c.last_name;
    tail = c.tail;
    is_last = c.is_last;
    here = after-later f fs c.tail c.last_name u.0 c.here;
    split = k ∙ c.split;
    clean = c.clean;
    not_corrupt = c.not_corrupt;
  }

  all-others :
      (n : String) (ns : List String) (fs : List AuditFile)
      → all (λ (g : AuditFile). not (n == g.name)) fs ≡ true
      → all (λ (g : AuditFile). not (includes ns g.name)) fs ≡ true
      → all (λ (g : AuditFile). not (includes (n ∷ ns) g.name)) fs ≡ true
  all-others n ns [] h k = refl
  all-others n ns (f ∷ fs) h k = ground (arith, all-others n ns fs)

  IsCut-corrupt :
      (p : Option (M → Bool)) (f : AuditFile) (fs : List AuditFile) (w : Walk M)
      → IsUnique (names (f ∷ fs))
      → kept p (f ∷ fs) ≡ kept p fs
      → IsCut p fs w
      → IsCut p (f ∷ fs) (with_corrupt read cursors f w)
  IsCut-corrupt p f fs w u k c = record {
    last_name = c.last_name;
    tail = c.tail;
    is_last = c.is_last;
    here = after-later f fs c.tail c.last_name u.0 c.here;
    split = k ∙ c.split;
    clean =
        all-others f.name w.corrupt_files c.tail
          (after-others f.name c.last_name fs c.tail c.here u.0) c.clean;
    not_corrupt = ground (
      arith,
      eq_iff f.name c.last_name,
      after-listed c.last_name fs c.tail c.here,
      u.0,
      c.not_corrupt,
    );
  }

  IsCut-listed :
      (p : Option (M → Bool)) (f : AuditFile) (fs : List AuditFile) (m : M) (w : Walk M)
      → IsUnique (names (f ∷ fs))
      → kept p (f ∷ fs) ≡ m ∷ kept p fs
      → IsStopped p fs w ⊎ IsCut p fs w
      → IsCut p (f ∷ fs) (with_item read cursors m f w)
  IsCut-listed p f fs m w u k (inl stop) = record {
    last_name = f.name;
    tail = fs;
    is_last = ap (λ o. or_option o (some f.name)) stop.no_last;
    here = ground (arith, eq_refl f.name);
    split = k ∙ ap (λ ms. m ∷ (ms ++ kept p fs)) (sym stop.no_item);
    clean = rw (stop.none_corrupt) (all-const fs);
    not_corrupt = rw (stop.none_corrupt) refl;
  }
  IsCut-listed p f fs m w u k (inr c) = record {
    last_name = c.last_name;
    tail = c.tail;
    is_last = ap (λ o. or_option o (some f.name)) c.is_last;
    here = after-later f fs c.tail c.last_name u.0 c.here;
    split = k ∙ ap (λ ms. m ∷ ms) c.split;
    clean = c.clean;
    not_corrupt = c.not_corrupt;
  }

  -- How a walk ends while files are left.
  pub Ended : Option (M → Bool) → ℕ → List AuditFile → Walk M → Type 0
  Ended p room fs w = ((nat_eq room 0 ≡ true) × IsStopped p fs w) ⊎ IsCut p fs w

  pub IsCut-with_room :
      (p : Option (M → Bool)) (room : ℕ) (fs : List AuditFile) (w : Walk M)
      → Ended p (suc room) fs w
      → IsCut p fs w
  unfolding Ended
  IsCut-with_room p room fs w (inl (z, stop)) = absurd (ground (arith))
  IsCut-with_room p room fs w (inr c) = c

  IsCut-listed_later :
      (p : Option (M → Bool)) (room : ℕ) (f : AuditFile) (fs : List AuditFile) (m : M) (w : Walk M)
      → IsUnique (names (f ∷ fs))
      → kept p (f ∷ fs) ≡ m ∷ kept p fs
      → Ended p room fs w
      → IsCut p (f ∷ fs) (with_item read cursors m f w)
  unfolding Ended
  IsCut-listed_later p room f fs m w u k (inl (z, stop)) = IsCut-listed p f fs m w u k (inl stop)
  IsCut-listed_later p room f fs m w u k (inr c) = IsCut-listed p f fs m w u k (inr c)

  pub walk-cut :
      (p : Option (M → Bool)) (room : ℕ) (fs : List AuditFile)
      → IsUnique (names fs)
      → (walk read cursors p room fs).more ≡ true
      → Ended p room fs (walk read cursors p room fs)
  unfolding walk Ended
  walk-cut p zero [] u h = absurd (ground (arith))
  walk-cut p zero (f ∷ fs) u h =
      inl (refl, record { no_item = refl; none_corrupt = refl; no_last = refl })
  walk-cut p (suc room) [] u h = absurd (ground (arith))
  walk-cut p (suc room) (f ∷ fs) u h = inr (elim (Verdict-Cases (verdict read cursors p f)) [
    | inl e ↦
        subst (λ (w : Walk M). IsCut p (f ∷ fs) w) (sym (walk-left_out p room f fs e))
          (IsCut-later p f fs (walk read cursors p (suc room) fs) u (kept-left_out p f fs e) (
            IsCut-with_room p room fs (walk read cursors p (suc room) fs) (
              walk-cut p (suc room) fs u.1
                (sym (ap (λ w. w.more) (walk-left_out p room f fs e)) ∙ h))))
    | inr c ↦ elim c [
      | inl e ↦
          subst (λ (w : Walk M). IsCut p (f ∷ fs) w) (sym (walk-corrupt p room f fs e))
            (IsCut-corrupt p f fs (walk read cursors p (suc room) fs) u (kept-corrupt p f fs e) (
              IsCut-with_room p room fs (walk read cursors p (suc room) fs) (
                walk-cut p (suc room) fs u.1
                  (sym (ap (λ w. w.more) (walk-corrupt p room f fs e)) ∙ h))))
      | inr (m, e) ↦
          subst (λ (w : Walk M). IsCut p (f ∷ fs) w) (sym (walk-listed p room f fs m e))
            (IsCut-listed_later p room f fs m (walk read cursors p room fs) u
              (kept-listed p f fs m e)
              (walk-cut p room fs u.1 (sym (ap (λ w. w.more) (walk-listed p room f fs m e)) ∙ h)))
    ]
  ])
