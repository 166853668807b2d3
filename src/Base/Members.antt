-- ===== src/Base/Members.antt =====
-- Rows of a list as members: the value itself stands there, and not only one with the same id.
use mathlib.Core.Path.{◌≡◌}
use mathlib.Core.Bool.{Bool, true}
use mathlib.Core.Option.{some}
use mathlib.Core.Logic.{inl, inr}
use mathlib.Core.List.{List, [], ◌∷◌, Memᴰ}
use mathlib.Core.List.Memᴰ
use native.Mathlib.Omega.{arith}
use molenkopf.Base.Tests.{Bool-cases}
use molenkopf.Base.Lists.{find, any, all}

module _ {ℓ} {A : Type ℓ} (p : A → Bool) where
  pub find-listed : (xs : List A) {x : A} → find p xs ≡ some x → Memᴰ x xs
  find-listed [] e = absurd (cc e)
  find-listed (y ∷ ys) {x} e = elim (Bool-cases (p y)) [
    | inl h ↦ Memᴰ.head (ground arith)
    | inr h ↦ Memᴰ.tail (find-listed ys {x = x} (rw h at e))
  ]

  pub any-of_listed : (xs : List A) {x : A} → Memᴰ x xs → p x ≡ true → any p xs ≡ true
  any-of_listed [] m h = absurd (Memᴰ.not-nil m)
  any-of_listed (y ∷ ys) {x} m h = elim (Memᴰ.cases_cons m) [
    | inl e ↦ ground arith
    | inr n ↦ ground (arith, any-of_listed ys {x = x} n)
  ]

  pub all-listed : (xs : List A) {x : A} → all p xs ≡ true → Memᴰ x xs → p x ≡ true
  all-listed [] h m = absurd (Memᴰ.not-nil m)
  all-listed (y ∷ ys) {x} h m = elim (Memᴰ.cases_cons m) [
    | inl e ↦ ground arith
    | inr n ↦ all-listed ys {x = x} (ground arith) n
  ]
