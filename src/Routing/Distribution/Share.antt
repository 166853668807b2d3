-- ===== src/Routing/Distribution/Share.antt =====
-- Which share is chosen.
use mathlib.Core.Path.{subst}
use molenkopf.Base.{
  ℕ, ◌+◌, ◌*◌, ◌≤◌, ◌<◌, String, ◌≡◌, refl, inl, inr, Bool, true, false, not, some, List, [], ◌∷◌,
  arith, ltb, Bool-cases, Option-cases, is_some, filter, any, all, all-listed, Memᴰ,
}
use mathlib.Core.List.Memᴰ
use molenkopf.Routing.Distribution.{
  ProviderShare, is_enabled_share, total_weight, total_used, less_deficit, best_from, best_share,
  choose_by_distribution,
}

-- `a` is at least as far below its target as every share of the list.
abbrev pub is_furthest : ℕ → ℕ → ProviderShare → List ProviderShare → Bool
is_furthest w t a shares = all (λ b. not (less_deficit w t a b)) shares

-- A row of the list, which is at least as far below its target as each of them, and
-- below it: its tokens are less than its part of all tokens and one more.
pub record IsChosen (enabled : List ProviderShare) (chosen : ProviderShare) : Type 0 where
  pub listed : Memᴰ chosen enabled
  pub furthest :
      (b : ProviderShare)
      → Memᴰ b enabled
      → b.weight * (total_used enabled + 1) + chosen.used_tokens * total_weight enabled
        ≤ chosen.weight * (total_used enabled + 1) + b.used_tokens * total_weight enabled
  pub below_target :
      chosen.used_tokens * total_weight enabled < chosen.weight * (total_used enabled + 1)

best_from-best :
    (w t : ℕ) (best : ProviderShare) (rest : List ProviderShare)
    → less_deficit w t (best_from w t best rest) best ≡ false
unfolding best_from
best_from-best w t best [] = ground arith
best_from-best w t best (x ∷ xs) = elim (Bool-cases (less_deficit w t best x)) [
  | inl e ↦ ground (arith, best_from-best w t x xs)
  | inr e ↦ ground (arith, best_from-best w t best xs)
]

best_from-rest :
    (w t : ℕ) (best : ProviderShare) (rest : List ProviderShare)
    → is_furthest w t (best_from w t best rest) rest ≡ true
unfolding best_from
best_from-rest w t best [] = refl
best_from-rest w t best (x ∷ xs) = elim (Bool-cases (less_deficit w t best x)) [
  | inl e ↦ ground (arith, best_from-best w t x xs, best_from-rest w t x xs)
  | inr e ↦ ground (arith, best_from-best w t best xs, best_from-rest w t best xs)
]

best_from-listed :
    (w t : ℕ) (best : ProviderShare) (rest : List ProviderShare)
    → Memᴰ (best_from w t best rest) (best ∷ rest)
unfolding best_from
best_from-listed w t best [] = Memᴰ.head refl
best_from-listed w t best (x ∷ xs) = elim (Bool-cases (less_deficit w t best x)) [
  | inl e ↦ rw e (Memᴰ.tail (best_from-listed w t x xs))
  | inr e ↦ rw e (elim (Memᴰ.cases_cons (best_from-listed w t best xs)) [
    | inl h ↦ Memᴰ.head h
    | inr m ↦ Memᴰ.tail (Memᴰ.tail m)
  ])
]

filter-listed :
    (shares : List ProviderShare) {a : ProviderShare}
    → Memᴰ a (filter is_enabled_share shares)
    → Memᴰ a shares × (0 < a.weight)
filter-listed [] m = absurd (Memᴰ.not-nil m)
filter-listed (s ∷ ss) {a} m = elim (Bool-cases (is_enabled_share s)) [
  | inl on ↦
      let m' : Memᴰ a (s ∷ filter is_enabled_share ss) = rw on at m in
      elim (Memᴰ.cases_cons m') [
        | inl e ↦ (Memᴰ.head e, ground arith)
        | inr n ↦ let (l, p) = filter-listed ss {a = a} n in (Memᴰ.tail l, p)
      ]
  | inr off ↦
      let m' : Memᴰ a (filter is_enabled_share ss) = rw off at m in
      let (l, p) = filter-listed ss {a = a} m' in (Memᴰ.tail l, p)
]

-- Were `a` at its target, no share would be below its own.
total-bound :
    (w t : ℕ) (a : ProviderShare) (shares : List ProviderShare)
    → is_furthest w t a shares ≡ true
    → a.weight * t ≤ a.used_tokens * w
    → total_weight shares * t ≤ total_used shares * w
total-bound w t a [] h k = omega arith
total-bound w t a (b ∷ bs) h k =
    let rest = total-bound w t a bs (ground arith) k in
    let here : b.weight * t ≤ b.used_tokens * w = ground arith in grind arith

furthest-below :
    (a : ProviderShare) (shares : List ProviderShare)
    → 0 < total_weight shares
    → is_furthest (total_weight shares) (total_used shares + 1) a shares ≡ true
    → a.used_tokens * total_weight shares < a.weight * (total_used shares + 1)
furthest-below a shares positive h =
    elim (Bool-cases
      (ltb (a.used_tokens * total_weight shares) (a.weight * (total_used shares + 1)))) [
        | inl e ↦ ground arith
        | inr e ↦
            let bound =
              total-bound (total_weight shares) (total_used shares + 1) a shares h (ground arith) in
            grind arith
      ]

enabled-positive :
    (shares : List ProviderShare) {x : ProviderShare} {xs : List ProviderShare}
    → filter is_enabled_share shares ≡ x ∷ xs
    → 0 < x.weight
enabled-positive [] e = cc
enabled-positive (s ∷ ss) {x} {xs} e = elim (Bool-cases (is_enabled_share s)) [
  | inl on ↦ ground arith
  | inr off ↦ enabled-positive ss {x = x} {xs = xs} (rw off at e)
]

best_of-IsChosen :
    (enabled : List ProviderShare) (chosen : ProviderShare)
    → ((x : ProviderShare) (xs : List ProviderShare) → enabled ≡ x ∷ xs → 0 < x.weight)
    → best_share enabled ≡ some chosen
    → IsChosen enabled chosen
unfolding best_share
best_of-IsChosen [] chosen positive e = cc
best_of-IsChosen (x ∷ xs) chosen positive e =
    let w = total_weight (x ∷ xs) in
    let t = total_used (x ∷ xs) + 1 in
    let same : best_from w t x xs ≡ chosen = cc e in
    let far : is_furthest w t chosen (x ∷ xs) ≡ true =
      ground (arith, best_from-best w t x xs, best_from-rest w t x xs) in
    record {
      listed = subst (λ (c : ProviderShare). Memᴰ c (x ∷ xs)) same (best_from-listed w t x xs);
      furthest = λ b m.
          let g = all-listed (λ b. not (less_deficit w t chosen b)) (x ∷ xs) {x = b} far m in
          ground arith;
      below_target =
          furthest-below chosen (x ∷ xs) (let p = positive x xs refl in ground arith) far;
    }

-- The id that is chosen is that of a row of the shares that has a positive weight and is, among the
-- shares of positive weight, furthest below its target, and is below it.
pub choose_by_distribution-IsChosen :
    (shares : List ProviderShare) (id : String)
    → choose_by_distribution shares ≡ some id
    → (chosen : ProviderShare) × (chosen.id ≡ id)
      × Memᴰ chosen shares
      × (0 < chosen.weight)
      × IsChosen (filter is_enabled_share shares) chosen
unfolding choose_by_distribution
choose_by_distribution-IsChosen shares id e =
    elim (Option-cases (best_share (filter is_enabled_share shares))) [
      | inl n ↦ absurd (ground arith)
      | inr (chosen, n) ↦
          let best =
            best_of-IsChosen (filter is_enabled_share shares) chosen
              (λ x xs h. enabled-positive shares {x = x} {xs = xs} h) n in
          let (listed, positive) = filter-listed shares {a = chosen} best.listed in
          (chosen, ground arith, listed, positive, best)
    ]

-- Some share is chosen exactly when some share has a positive weight.
pub choose_by_distribution-is_some :
    (shares : List ProviderShare)
    → is_some (choose_by_distribution shares) ≡ any is_enabled_share shares
unfolding choose_by_distribution best_share
choose_by_distribution-is_some [] = refl
choose_by_distribution-is_some (s ∷ ss) = elim (Bool-cases (is_enabled_share s)) [
  | inl on ↦ rw on
  | inr off ↦ rw off (choose_by_distribution-is_some ss)
]
