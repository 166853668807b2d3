-- ===== src/Base/Distinct.antt =====
-- Records whose names are different from each other, as those of a JavaScript object are.
use Prim.Native.String.{String}
use mathlib.Core.Path.{◌≡◌, refl}
use mathlib.Core.Bool.{Bool, true, false}
use mathlib.Core.Logic.{inl, inr}
use mathlib.Core.Option
use mathlib.Core.Option.{Option, none, some}
use mathlib.Core.List.{List, [], ◌∷◌}
use native.Mathlib.Omega.{arith}
use text.Mathlib.Text.{◌==◌}
use molenkopf.Base.Tests.{if◌then◌else◌, Bool-cases}
use molenkopf.Base.Lists.{includes}
use molenkopf.Base.Dicts.{
  Dict, lookup, erase, erase_all, has, has-erase, has-map_values, lookup-erase, map_values,
  all_rows,
}

module _ {ℓ} {V : Type ℓ} where
  -- No name stands twice.
  abbrev pub IsDistinct : Dict V → Type 0
  IsDistinct [] = Unit
  IsDistinct ((k, v) ∷ d) = (has k d ≡ false) × IsDistinct d

  pub map_values-IsDistinct : (f : V → V) (d : Dict V) → IsDistinct d → IsDistinct (map_values f d)
  map_values-IsDistinct f [] h = tt
  map_values-IsDistinct f ((k, v) ∷ d) h =
      (ground (arith, has-map_values f k d), map_values-IsDistinct f d h.1)

  pub erase-IsDistinct : (k : String) (d : Dict V) → IsDistinct d → IsDistinct (erase k d)
  erase-IsDistinct k [] h = tt
  erase-IsDistinct k ((j, v) ∷ d) h = elim (Bool-cases (j == k)) [
    | inl e ↦ rw e (erase-IsDistinct k d h.1)
    | inr e ↦ rw e (ground (arith, has-erase k j d), erase-IsDistinct k d h.1)
  ]

module _ {ℓ} {V : Type ℓ} where
  pub erase_all-IsDistinct :
      (ks : List String) (d : Dict V) → IsDistinct d → IsDistinct (erase_all ks d)
  erase_all-IsDistinct [] d h = h
  erase_all-IsDistinct (k ∷ ks) d h = erase_all-IsDistinct ks (erase k d) (erase-IsDistinct k d h)

  pub lookup-erase_all :
      (ks : List String) (j : String) (d : Dict V)
      → lookup j (erase_all ks d) ≡ (if includes ks j then none else lookup j d)
  lookup-erase_all [] j d = refl
  lookup-erase_all (k ∷ ks) j d =
      ground (arith, lookup-erase_all ks j (erase k d), lookup-erase k j d)

  pub lookup-map_values :
      (f : V → V) (k : String) (d : Dict V) → lookup k (map_values f d) ≡ Option.map f (lookup k d)
  lookup-map_values f k [] = refl
  lookup-map_values f k ((j, v) ∷ d) = elim (Bool-cases (j == k)) [
    | inl e ↦ rw e refl
    | inr e ↦ rw e (lookup-map_values f k d)
  ]

  pub all_rows-lookup :
      (p : V → Bool) (k : String) (d : Dict V) {v : V}
      → all_rows (λ _ v. p v) d ≡ true
      → lookup k d ≡ some v
      → p v ≡ true
  all_rows-lookup p k [] h e = absurd (cc e)
  all_rows-lookup p k ((j, w) ∷ d) {v} h e = elim (Bool-cases (j == k)) [
    | inl s ↦ ground arith
    | inr s ↦ all_rows-lookup p k d {v = v} (ground arith) (rw s at e)
  ]
