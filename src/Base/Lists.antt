-- ===== src/Base/Lists.antt =====
-- Lists measured by native numbers, the array methods that the program uses, with Boolean tests,
-- and lists of texts used as sets.
use Prim.Native.Nat.{ℕ, zero, suc, ◌+◌, ◌-◌}
use Prim.Native.String.{String}
use mathlib.Core.Path.{◌≡◌, refl, sym, ap, ◌∙◌}
use mathlib.Core.Bool.{Bool, true, false, ◌&&◌, ◌||◌, not}
use mathlib.Core.Option.{Option, none, some}
use mathlib.Core.List.{List, [], ◌∷◌, ◌++◌}
use native.Mathlib.Omega.{arith}
use text.Mathlib.Text.{◌==◌}
use text.Mathlib.TextEquality.{eq_iff}
use molenkopf.Base.Tests.{if◌then◌else◌, leb}

module _ {ℓ} {A : Type ℓ} where
  abbrev pub length : List A → ℕ
  length [] = 0
  length (x ∷ xs) = suc (length xs)

  abbrev pub take : ℕ → List A → List A
  take zero xs = []
  take (suc n) [] = []
  take (suc n) (x ∷ xs) = x ∷ take n xs

  abbrev pub drop : ℕ → List A → List A
  drop zero xs = xs
  drop (suc n) [] = []
  drop (suc n) (x ∷ xs) = drop n xs

  abbrev pub filter : (A → Bool) → List A → List A
  filter p [] = []
  filter p (x ∷ xs) = if p x then x ∷ filter p xs else filter p xs

  abbrev pub find : (A → Bool) → List A → Option A
  find p [] = none
  find p (x ∷ xs) = if p x then some x else find p xs

  -- `xs.some(p)`
  abbrev pub any : (A → Bool) → List A → Bool
  any p [] = false
  any p (x ∷ xs) = p x || any p xs

  -- `xs.every(p)`
  abbrev pub all : (A → Bool) → List A → Bool
  all p [] = true
  all p (x ∷ xs) = p x && all p xs

  pub length-append : (xs ys : List A) → length (xs ++ ys) ≡ length xs + length ys
  length-append [] ys = omega arith
  length-append (x ∷ xs) ys = omega (arith, length-append xs ys)

module _ {ℓ κ} {A : Type ℓ} where
  abbrev pub All : (A → Type κ) → List A → Type κ
  All P [] = Unit
  All P (x ∷ xs) = P x × All P xs

-- `xs.includes(y)`
abbrev pub includes : List String → String → Bool
includes [] y = false
includes (x ∷ xs) y = x == y || includes xs y

pub includes-filter :
    (p : String → Bool) (xs : List String) (y : String)
    → includes (filter p xs) y ≡ (includes xs y && p y)
includes-filter p [] y = refl
includes-filter p (x ∷ xs) y = ground (arith, eq_iff x y, includes-filter p xs y)

pub includes-append :
    (xs ys : List String) (y : String) → includes (xs ++ ys) y ≡ (includes xs y || includes ys y)
includes-append [] ys y = refl
includes-append (x ∷ xs) ys y = ground (arith, includes-append xs ys y)

abbrev pub other_than : String → String → Bool
other_than x y = not (x == y)

-- `[...new Set(xs)]`: the first occurrence of each value, in order.
abbrev pub unique : List String → List String
unique [] = []
unique (x ∷ xs) = x ∷ filter (other_than x) (unique xs)

pub includes-unique : (xs : List String) (y : String) → includes (unique xs) y ≡ includes xs y
includes-unique [] y = refl
includes-unique (x ∷ xs) y =
    ground (arith, includes-filter (other_than x) (unique xs) y, includes-unique xs y)

-- No text stands twice in the list.
abbrev pub IsUnique : List String → Type 0
IsUnique [] = Unit
IsUnique (x ∷ xs) = (includes xs x ≡ false) × IsUnique xs

pub filter-IsUnique : (p : String → Bool) (xs : List String) → IsUnique xs → IsUnique (filter p xs)
filter-IsUnique p [] h = tt
filter-IsUnique p (x ∷ xs) h = ground (arith, includes-filter p xs x, filter-IsUnique p xs h.1)

pub unique-IsUnique : (xs : List String) → IsUnique (unique xs)
unique-IsUnique [] = tt
unique-IsUnique (x ∷ xs) = (
  ground (arith, includes-filter (other_than x) (unique xs) x, eq_iff x x),
  filter-IsUnique (other_than x) (unique xs) (unique-IsUnique xs),
)

pub filter_self :
    (p : String → Bool) (xs : List String)
    → ((t : String) → includes xs t ≡ true → p t ≡ true)
    → filter p xs ≡ xs
filter_self p [] h = refl
filter_self p (x ∷ xs) h =
    ground (arith, h x, eq_iff x x, filter_self p xs (λ t e. h t (ground arith)))

pub unique_self : (xs : List String) → IsUnique xs → unique xs ≡ xs
unique_self [] h = refl
unique_self (x ∷ xs) h =
    ground
      (arith, unique_self xs h.1, filter_self (other_than x) xs (λ t e. ground (arith, eq_iff x t)))

pub all_mono {ℓ} :
    {A : Type ℓ} (p q : A → Bool)
    → ((x : A) → p x ≡ true → q x ≡ true)
    → (xs : List A) → all p xs ≡ true
    → all q xs ≡ true
all_mono p q h [] e = refl
all_mono p q h (x ∷ xs) e = ground (arith, h x, all_mono p q h xs)

pub all-filter {ℓ} :
    {A : Type ℓ} (p q : A → Bool) (xs : List A)
    → all q xs ≡ true
    → all (λ x. p x && q x) (filter p xs) ≡ true
all-filter p q [] e = refl
all-filter p q (x ∷ xs) e = ground (arith, all-filter p q xs)

pub all-of_includes :
    (p : String → Bool) (xs : List String) (y : String)
    → all p xs ≡ true
    → includes xs y ≡ true
    → p y ≡ true
all-of_includes p [] y e h = cc
all-of_includes p (x ∷ xs) y e h = ground (arith, eq_iff x y, all-of_includes p xs y)

pub all-filter_self {ℓ} : {A : Type ℓ} (p : A → Bool) (xs : List A) → all p (filter p xs) ≡ true
all-filter_self p [] = refl
all-filter_self p (x ∷ xs) = ground (arith, all-filter_self p xs)

pub all-const {ℓ} : {A : Type ℓ} (xs : List A) → all (λ _. true) xs ≡ true
all-const [] = refl
all-const (x ∷ xs) = all-const xs

pub filter-all {ℓ} : {A : Type ℓ} (p : A → Bool) (xs : List A) → all p xs ≡ true → filter p xs ≡ xs
filter-all p [] h = refl
filter-all p (x ∷ xs) h = ground (arith, filter-all p xs)

pub all-append {ℓ} :
    {A : Type ℓ} (p : A → Bool) (xs ys : List A) → all p (xs ++ ys) ≡ (all p xs && all p ys)
all-append p [] ys = refl
all-append p (x ∷ xs) ys = ground (arith, all-append p xs ys)

pub any-append {ℓ} :
    {A : Type ℓ} (p : A → Bool) (xs ys : List A) → any p (xs ++ ys) ≡ (any p xs || any p ys)
any-append p [] ys = refl
any-append p (x ∷ xs) ys = ground (arith, any-append p xs ys)

pub length-filter {ℓ} :
    {A : Type ℓ} (p : A → Bool) (xs : List A) → leb (length (filter p xs)) (length xs) ≡ true
length-filter p [] = refl
length-filter p (x ∷ xs) = ground (arith, length-filter p xs)

module _ {ℓ} {A : Type ℓ} where
  drop-nil : (m : ℕ) → drop {A = A} m [] ≡ []
  drop-nil zero = refl
  drop-nil (suc m) = refl

  pub drop-drop : (m n : ℕ) (xs : List A) → drop m (drop n xs) ≡ drop (n + m) xs
  drop-drop m zero xs = ap (λ (k : ℕ). drop k xs) (omega arith)
  drop-drop m (suc n) [] = drop-nil m ∙ sym (drop-nil (suc n + m))
  drop-drop m (suc n) (x ∷ xs) =
      drop-drop m n xs ∙ ap (λ (k : ℕ). drop k (x ∷ xs)) {x = suc (n + m)} (omega arith)

  pub length-drop : (n : ℕ) (xs : List A) → length (drop n xs) ≡ length xs - n
  length-drop zero xs = omega arith
  length-drop (suc n) [] = omega arith
  length-drop (suc n) (x ∷ xs) = omega (arith, length-drop n xs)
