-- ===== src/Routing/Distribution.antt =====
-- Weighted distribution of the requests, packages/core/src/routing/distribution.ts. A share's deficit
-- is `weight / W * (T + 1) - used`; the model compares deficits after multiplying them by `W`, so
-- that they are exact where the source rounds.
pub mod Share
use molenkopf.Base.{
  ℕ, zero, suc, ◌+◌, ◌-◌, ◌*◌, ◌/◌, ◌≤◌, ◌<◌, String, ◌≡◌, refl, sym, ap, ◌∙◌, ◌≢◌, ◌↔◌, ◌⊎◌, inl,
  inr, Bool, true, false, ◌&&◌, ◌||◌, not, Option, none, some, List, [], ◌∷◌, ◌++◌, map, arith,
  ◌==◌, eq_iff, eq_refl, ltb, leb, nat_eq, if◌then◌else◌, Bool-cases, Option-cases, or_else,
  or_option, is_some, ◌>>=◌, Result, ok, fail, length, take, drop, filter, find, any, all, All,
  length-append, includes, includes-filter, includes-append, other_than, unique, includes-unique,
  IsUnique, filter-IsUnique, unique-IsUnique, all_mono, all-filter, all-of_includes,
  all-filter_self, all-const, filter-all, Dict, lookup, insert, erase, values, lookup-insert,
  lookup-erase, has, has-erase, all_rows, erase_all, map_values, is_empty, is_space, trim, size,
  every_char, is_digit, is_letter, is_id_char, is_slug,
}

pub record ProviderShare : Type 0 where
  pub id : String
  pub weight : ℕ
  pub used_tokens : ℕ

abbrev pub is_enabled_share : ProviderShare → Bool
is_enabled_share share = ltb 0 share.weight

abbrev pub total_weight : List ProviderShare → ℕ
total_weight [] = 0
total_weight (share ∷ shares) = share.weight + total_weight shares

abbrev pub total_used : List ProviderShare → ℕ
total_used [] = 0
total_used (share ∷ shares) = share.used_tokens + total_used shares

-- The deficit of `a` is less than the one of `b`, for a total weight `w` and `t` tokens to share.
abbrev pub less_deficit : ℕ → ℕ → ProviderShare → ProviderShare → Bool
less_deficit w t a b = ltb (a.weight * t + b.used_tokens * w) (b.weight * t + a.used_tokens * w)

-- The loop over the shares that follow the first one.
unfoldable pub best_from : ℕ → ℕ → ProviderShare → List ProviderShare → ProviderShare
best_from w t best [] = best
best_from w t best (share ∷ shares) =
    best_from w t (if less_deficit w t best share then share else best) shares

unfoldable pub best_of : ℕ → ℕ → List ProviderShare → Option ProviderShare
unfolding best_from
best_of w t [] = none
best_of w t (share ∷ shares) = some (best_from w t share shares)

unfoldable pub best_share : List ProviderShare → Option ProviderShare
unfolding best_of
best_share enabled = best_of (total_weight enabled) (total_used enabled + 1) enabled

abbrev pub id_of : Option ProviderShare → Option String
id_of none = none
id_of (some share) = some share.id

unfoldable pub choose_by_distribution : List ProviderShare → Option String
unfolding best_share
choose_by_distribution shares = id_of (best_share (filter is_enabled_share shares))

-- `weightShares`, in tenths of a percent, rounded to the nearest one.
weight_share : ℕ → ℕ → ℕ
weight_share total weight = if ltb 0 total then (2000 * weight + total) / (2 * total) else 0

abbrev weight_shares_from : ℕ → Dict ℕ → List ProviderShare → Dict ℕ
weight_shares_from total out [] = out
weight_shares_from total out (share ∷ shares) =
    weight_shares_from total (insert share.id (weight_share total share.weight) out) shares

unfoldable pub weight_shares : List ProviderShare → Dict ℕ
unfolding weight_share
weight_shares shares = weight_shares_from (total_weight shares) [] shares
