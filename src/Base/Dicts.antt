-- ===== src/Base/Dicts.antt =====
-- A JavaScript record keyed by texts, in insertion order.
use Prim.Native.String.{String}
use mathlib.Core.Path.{◌≡◌, refl}
use mathlib.Core.Bool.{Bool, true, false, ◌&&◌, not}
use mathlib.Core.Logic.{inl, inr}
use mathlib.Core.Option
use mathlib.Core.Option.{Option, none, some}
use mathlib.Core.List.{List, [], ◌∷◌}
use native.Mathlib.Omega.{arith}
use text.Mathlib.Text.{◌==◌}
use text.Mathlib.TextEquality.{eq_iff}
use molenkopf.Base.Tests.{if◌then◌else◌, is_some, Bool-cases}
use molenkopf.Base.Lists.{includes}

abbrev pub Dict {ℓ} : Type ℓ → Type ℓ
Dict V = List (String × V)

module _ {ℓ} {V : Type ℓ} where
  -- `d[k]`
  abbrev pub lookup : String → Dict V → Option V
  lookup k [] = none
  lookup k ((j, v) ∷ d) = if j == k then some v else lookup k d

  -- `d[k] = v`
  abbrev pub insert : String → V → Dict V → Dict V
  insert k v [] = (k, v) ∷ []
  insert k v ((j, w) ∷ d) = if j == k then (j, v) ∷ d else (j, w) ∷ insert k v d

  -- `delete d[k]`
  abbrev pub erase : String → Dict V → Dict V
  erase k [] = []
  erase k ((j, v) ∷ d) = if j == k then erase k d else (j, v) ∷ erase k d

  -- `Object.values(d)`
  abbrev pub values : Dict V → List V
  values [] = []
  values ((j, v) ∷ d) = v ∷ values d

  pub lookup-insert :
      (k j : String) (v : V) (d : Dict V)
      → lookup j (insert k v d) ≡ (if k == j then some v else lookup j d)
  lookup-insert k j v [] = refl
  lookup-insert k j v ((i, w) ∷ d) =
      ground (arith, eq_iff k j, eq_iff i k, eq_iff i j, lookup-insert k j v d)

  pub lookup-erase :
      (k j : String) (d : Dict V) → lookup j (erase k d) ≡ (if k == j then none else lookup j d)
  lookup-erase k j [] = ground arith
  lookup-erase k j ((i, w) ∷ d) =
      ground (arith, eq_iff k j, eq_iff i k, eq_iff i j, lookup-erase k j d)

  -- `Boolean(d[k])` of a record of objects
  abbrev pub has : String → Dict V → Bool
  has k d = is_some (lookup k d)

  pub has-erase :
      (k j : String) (d : Dict V) → has j (erase k d) ≡ (if k == j then false else has j d)
  has-erase k j d = ground (arith, lookup-erase k j d)

  -- Each row passes the test.
  abbrev pub all_rows : (String → V → Bool) → Dict V → Bool
  all_rows p [] = true
  all_rows p ((k, v) ∷ d) = p k v && all_rows p d

  -- Several deletions in a row.
  abbrev pub erase_all : List String → Dict V → Dict V
  erase_all [] d = d
  erase_all (k ∷ ks) d = erase_all ks (erase k d)

  -- An assignment to a member of each object that the record holds.
  abbrev pub map_values : (V → V) → Dict V → Dict V
  map_values f [] = []
  map_values f ((k, v) ∷ d) = (k, f v) ∷ map_values f d

module _ {ℓ} {V : Type ℓ} where
  pub has-map_values : (f : V → V) (k : String) (d : Dict V) → has k (map_values f d) ≡ has k d
  has-map_values f k [] = refl
  has-map_values f k ((j, v) ∷ d) = ground (arith, has-map_values f k d)

  pub all_rows_mono :
      (p q : String → V → Bool)
      → ((k : String) (v : V) → p k v ≡ true → q k v ≡ true)
      → (d : Dict V) → all_rows p d ≡ true
      → all_rows q d ≡ true
  all_rows_mono p q h [] e = refl
  all_rows_mono p q h ((k, v) ∷ d) e = ground (arith, h k v, all_rows_mono p q h d)

  pub all_rows-map_values :
      (p q : String → V → Bool) (f : V → V)
      → ((k : String) (v : V) → p k v ≡ true → q k (f v) ≡ true)
      → (d : Dict V) → all_rows p d ≡ true
      → all_rows q (map_values f d) ≡ true
  all_rows-map_values p q f h [] e = refl
  all_rows-map_values p q f h ((k, v) ∷ d) e = ground (arith, h k v, all_rows-map_values p q f h d)

  pub all_rows-and :
      (p q : String → V → Bool) (d : Dict V)
      → all_rows p d ≡ true
      → all_rows q d ≡ true
      → all_rows (λ k v. p k v && q k v) d ≡ true
  all_rows-and p q [] e f = refl
  all_rows-and p q ((k, v) ∷ d) e f = ground (arith, all_rows-and p q d)

  -- A deletion keeps the other rows, and leaves none under its key.
  pub all_rows-erase :
      (p : String → V → Bool) (k : String) (d : Dict V)
      → all_rows p d ≡ true
      → all_rows (λ j v. not (k == j) && p j v) (erase k d) ≡ true
  all_rows-erase p k [] e = refl
  all_rows-erase p k ((j, v) ∷ d) e = ground (arith, eq_iff j k, eq_iff k j, all_rows-erase p k d)

module _ {ℓ} {V : Type ℓ} where
  pub all_rows-erase_all :
      (p : String → V → Bool) (ks : List String) (d : Dict V)
      → all_rows p d ≡ true
      → all_rows (λ j v. not (includes ks j) && p j v) (erase_all ks d) ≡ true
  all_rows-erase_all p [] d e = all_rows_mono p _ (λ j v h. ground arith) d e
  all_rows-erase_all p (k ∷ ks) d e =
      all_rows_mono _ _ (λ j v h. ground arith) (erase_all ks (erase k d))
        (all_rows-erase_all (λ j v. not (k == j) && p j v) ks (erase k d) (all_rows-erase p k d e))

  pub has-erase_all :
      (ks : List String) (j : String) (d : Dict V)
      → has j (erase_all ks d) ≡ (not (includes ks j) && has j d)
  has-erase_all [] j d = refl
  has-erase_all (k ∷ ks) j d = ground (arith, has-erase_all ks j (erase k d), has-erase k j d)

  pub has-insert :
      (k j : String) (v : V) (d : Dict V)
      → has j (insert k v d) ≡ (if k == j then true else has j d)
  has-insert k j v d = ground (arith, lookup-insert k j v d)

  pub all_rows-insert :
      (p : String → V → Bool) (k : String) (v : V) (d : Dict V)
      → p k v ≡ true
      → all_rows p d ≡ true
      → all_rows p (insert k v d) ≡ true
  all_rows-insert p k v [] h e = ground arith
  all_rows-insert p k v ((j, w) ∷ d) h e = elim (Bool-cases (j == k)) [
    | inl same ↦ rw (same, (eq_iff j k).0 same) (ground arith)
    | inr other ↦ rw other (ground (arith, all_rows-insert p k v d h))
  ]

  pub all_rows-erase_weak :
      (p : String → V → Bool) (k : String) (d : Dict V)
      → all_rows p d ≡ true
      → all_rows p (erase k d) ≡ true
  all_rows-erase_weak p k d e =
      all_rows_mono _ p (λ j v h. ground arith) (erase k d) (all_rows-erase p k d e)

  pub all_rows-erase_all_weak :
      (p : String → V → Bool) (ks : List String) (d : Dict V)
      → all_rows p d ≡ true
      → all_rows p (erase_all ks d) ≡ true
  all_rows-erase_all_weak p ks d e =
      all_rows_mono _ p (λ j v h. ground arith) (erase_all ks d) (all_rows-erase_all p ks d e)

module _ {ℓ} {V : Type ℓ} where
  -- A change of the object that stands under a key.
  abbrev pub update : String → (V → V) → Dict V → Dict V
  update k f [] = []
  update k f ((j, v) ∷ d) = (j, if j == k then f v else v) ∷ update k f d

  pub lookup-update :
      (k j : String) (f : V → V) (d : Dict V)
      → lookup j (update k f d) ≡ (if k == j then Option.map f (lookup j d) else lookup j d)
  lookup-update k j f [] = ground arith
  lookup-update k j f ((i, w) ∷ d) =
      ground (arith, eq_iff k j, eq_iff i k, eq_iff i j, lookup-update k j f d)

  pub all_rows-update :
      (p q : String → V → Bool) (k : String) (f : V → V)
      → ((j : String) (v : V) → p j v ≡ true → q j (if j == k then f v else v) ≡ true)
      → (d : Dict V) → all_rows p d ≡ true
      → all_rows q (update k f d) ≡ true
  all_rows-update p q k f h [] e = refl
  all_rows-update p q k f h ((j, v) ∷ d) e = ground (arith, h j v, all_rows-update p q k f h d)
