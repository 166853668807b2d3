-- ===== src/Audit/Retention.antt =====
-- What the retention leaves.
use molenkopf.Base.{
  ℕ, zero, suc, ◌+◌, ◌-◌, ◌≤◌, String, ◌≡◌, refl, sym, ap, ◌∙◌, inl, inr, Bool, true, Option, none,
  some, List, [], ◌∷◌, arith, ltb, leb, Bool-cases, length, drop, filter,
}
use mathlib.Core.Path.{subst}
use molenkopf.Base.{length-drop, drop-drop}
use molenkopf.Audit.{
  AuditFile, AuditRetention, limit_of, young, last_files, total_bytes, shrink, small_files,
  enforce_retention,
}

-- The list is at most so long, and its files have at most so many bytes, where a limit is set.
abbrev pub is_within : Option ℕ → ℕ → Bool
is_within none n = true
is_within (some max) n = leb n max

abbrev pub young_files : AuditRetention → (String → ℕ) → ℕ → List AuditFile → List AuditFile
young_files retention file_time now files =
    filter (λ f. young (limit_of retention.max_age_ms) now (file_time f.name)) files

-- The young files but for the oldest ones of them, no more of which are gone than the limits ask for.
pub record IsRetained (retention : AuditRetention) (file_time : String → ℕ) (now : ℕ)
    (files kept : List AuditFile) : Type 0 where
  pub gone : ℕ
  pub newest : kept ≡ drop gone (young_files retention file_time now files)
  pub few : is_within (limit_of retention.max_files) (length kept) ≡ true
  pub small : is_within (limit_of retention.max_bytes) (total_bytes kept) ≡ true
  pub fewest :
      (n : ℕ)
      → is_within
          (limit_of retention.max_files)
          (length (drop n (young_files retention file_time now files)))
        ≡ true
      → is_within
          (limit_of retention.max_bytes)
          (total_bytes (drop n (young_files retention file_time now files)))
        ≡ true
      → gone ≤ n

-- `cut` is the first `n` files gone, and no smaller number makes the rest pass the test.
record IsLeastCut (test : List AuditFile → Bool) (fs cut : List AuditFile) : Type 0 where
  gone : ℕ
  same : cut ≡ drop gone fs
  least : (j : ℕ) → test (drop j fs) ≡ true → gone ≤ j

shrink-least :
    (max : ℕ) (f : AuditFile) (fs : List AuditFile) (n : ℕ)
    → ((j : ℕ) → leb (total_bytes (drop j fs)) max ≡ true → n ≤ j)
    → ltb max (total_bytes (f ∷ fs)) ≡ true
    → (j : ℕ) → leb (total_bytes (drop j (f ∷ fs))) max ≡ true
    → suc n ≤ j
shrink-least max f fs n least e zero h = absurd (ground (arith))
shrink-least max f fs n least e (suc j) h = omega (arith, least j h)

shrink-IsLeastCut :
    (max : ℕ) (fs : List AuditFile) → IsLeastCut (λ gs. leb (total_bytes gs) max) fs (shrink max fs)
shrink-IsLeastCut max [] = record { gone = 0; same = refl; least = λ j h. omega (arith) }
shrink-IsLeastCut max (f ∷ fs) = elim (Bool-cases (ltb max (total_bytes (f ∷ fs)))) [
  | inl e ↦
      let rest = shrink-IsLeastCut max fs in
      record {
        gone = suc rest.gone;
        same = rw (e) rest.same;
        least = λ j h. shrink-least max f fs rest.gone rest.least e j h;
      }
  | inr e ↦ record { gone = 0; same = rw (e); least = λ j h. omega (arith) }
]

shrink-small : (max : ℕ) (fs : List AuditFile) → leb (total_bytes (shrink max fs)) max ≡ true
shrink-small max [] = ground (arith)
shrink-small max (f ∷ fs) = ground (arith, shrink-small max fs)

shrink-length : (max : ℕ) (fs : List AuditFile) → leb (length (shrink max fs)) (length fs) ≡ true
shrink-length max [] = refl
shrink-length max (f ∷ fs) = ground (arith, shrink-length max fs)

last_files-IsLeastCut :
    (limit : Option ℕ) (fs : List AuditFile)
    → IsLeastCut (λ gs. is_within limit (length gs)) fs (last_files limit fs)
last_files-IsLeastCut none fs = record { gone = 0; same = refl; least = λ j h. omega (arith) }
last_files-IsLeastCut (some k) fs = record {
  gone = length fs - k;
  same = refl;
  least = λ j h. ground (arith, length-drop j fs);
}

last_files-few :
    (limit : Option ℕ) (fs : List AuditFile) → is_within limit (length (last_files limit fs)) ≡ true
last_files-few none fs = refl
last_files-few (some k) fs = ground (arith, length-drop (length fs - k) fs)

small_files-IsLeastCut :
    (limit : Option ℕ) (fs : List AuditFile)
    → IsLeastCut (λ gs. is_within limit (total_bytes gs)) fs (small_files limit fs)
small_files-IsLeastCut none fs = record { gone = 0; same = refl; least = λ j h. omega (arith) }
small_files-IsLeastCut (some max) fs = shrink-IsLeastCut max fs

small_files-small :
    (limit : Option ℕ) (fs : List AuditFile)
    → is_within limit (total_bytes (small_files limit fs)) ≡ true
small_files-small none fs = refl
small_files-small (some max) fs = shrink-small max fs

within-drop :
    (limit : Option ℕ) (n : ℕ) (fs : List AuditFile)
    → is_within limit (length fs) ≡ true
    → is_within limit (length (drop n fs)) ≡ true
within-drop none n fs h = refl
within-drop (some k) n fs h = ground (arith, length-drop n fs)

gone-fewest :
    (bytes : Option ℕ) (fresh : List AuditFile) (m n j : ℕ)
    → m ≤ j
    → ((k : ℕ) → is_within bytes (total_bytes (drop k (drop m fresh))) ≡ true → n ≤ k)
    → is_within bytes (total_bytes (drop j fresh)) ≡ true
    → m + n ≤ j
gone-fewest bytes fresh m n j h least small =
    let again : drop (j - m) (drop m fresh) ≡ drop j fresh =
      drop-drop (j - m) m fresh ∙ ap (λ (k : ℕ). drop k fresh) (omega (arith, h)) in
    omega (
      arith,
      h,
      least (j - m) (ap (λ (fs : List AuditFile). is_within bytes (total_bytes fs)) again ∙ small),
    )

-- Retention leaves the newest of the files that are not too old, at most as many as it allows and
-- with at most as many bytes, where these limits are set; and it removes no more of them than that.
pub enforce_retention-IsRetained :
    (retention : AuditRetention) (file_time : String → ℕ) (now : ℕ) (files : List AuditFile)
    → IsRetained retention file_time now files (enforce_retention retention file_time now files)
unfolding enforce_retention
enforce_retention-IsRetained retention file_time now files =
    let count = limit_of retention.max_files in
    let bytes = limit_of retention.max_bytes in
    let fresh = young_files retention file_time now files in
    let few = last_files-IsLeastCut count fresh in
    let small = small_files-IsLeastCut bytes (last_files count fresh) in
    record {
      gone = few.gone + small.gone;
      newest =
          small.same ∙ ap (λ fs. drop small.gone fs) few.same ∙ drop-drop small.gone few.gone fresh;
      few =
          subst (λ (fs : List AuditFile). is_within count (length fs) ≡ true) (sym small.same)
            (within-drop count small.gone (last_files count fresh) (last_files-few count fresh));
      small = small_files-small bytes (last_files count fresh);
      fewest = λ j h k.
          gone-fewest bytes fresh few.gone small.gone j (few.least j h)
            (λ i l. small.least i (
              subst (λ (fs : List AuditFile). is_within bytes (total_bytes (drop i fs)) ≡ true)
                (sym few.same) l))
            k;
    }
