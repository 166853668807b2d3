-- ===== src/Usage/Bucket.antt =====
-- What one request adds to the amounts that are read for a period.
use molenkopf.Base.{
  ℕ, ◌+◌, String, ◌≡◌, refl, sym, ap, ◌∙◌, ◌≢◌, inl, inr, Bool, true, false, ◌&&◌, some, [], ◌∷◌,
  arith, ◌==◌, eq_iff, Bool-cases, Option-cases, or_else, Dict, lookup, insert, lookup-insert,
}
use Prim.Native.Char.{code}
use text.Mathlib.TextLemmas.{cons-append}
use molenkopf.Identity.{BudgetPeriod, day, week, month, total}
use molenkopf.Runtime.{PeriodUsage, UsageTotals, AuditManifest}
use molenkopf.Usage.Period.{budget_period_key}
use molenkopf.Usage.{
  no_period_usage, no_usage, manifest_input, manifest_output, add_usage, add_to_bucket,
  with_request, accumulate, usage_for_period, usage_of, tokens_of, cost_of, sum_users,
}

abbrev first_code : String → ℕ
first_code String.[] = 0
first_code (String.◌∷◌ c s) = code c

first_code-day : (at : ℕ) → first_code (budget_period_key day at) ≡ b'd'
unfolding budget_period_key
first_code-day at = rw cons-append refl

first_code-week : (at : ℕ) → first_code (budget_period_key week at) ≡ b'w'
unfolding budget_period_key
first_code-week at = rw cons-append refl

first_code-month : (at : ℕ) → first_code (budget_period_key month at) ≡ b'm'
unfolding budget_period_key
first_code-month at = rw cons-append refl

differ : (a b : String) → first_code a ≢ first_code b → (a == b) ≡ false
differ a b h = elim (Bool-cases (a == b)) [
  | inl e ↦ absurd (h (ap first_code ((eq_iff a b).0 e)))
  | inr e ↦ e
]

-- A request at `at` counts for the period of `now`.
unfoldable pub counts_in : BudgetPeriod → ℕ → ℕ → Bool
counts_in total at now = true
counts_in period at now = budget_period_key period at == budget_period_key period now

abbrev pub when : Bool → ℕ → ℕ
when true n = n
when false n = 0

-- An amount that each request adds to: the tokens, or the cost.
pub record IsAmount (amount : PeriodUsage → ℕ) (m : AuditManifest) (cost added : ℕ) : Type 0 where
  pub grows : (u : PeriodUsage) → amount (add_usage u m cost) ≡ amount u + added
  pub starts : amount no_period_usage ≡ 0

pub tokens_of-IsAmount :
    (m : AuditManifest) (cost : ℕ)
    → IsAmount tokens_of m cost (manifest_input m + manifest_output m)
unfolding add_usage
tokens_of-IsAmount m cost = record { grows = λ u. omega arith; starts = refl }

pub cost_of-IsAmount : (m : AuditManifest) (cost : ℕ) → IsAmount cost_of m cost cost
unfolding add_usage
cost_of-IsAmount m cost = record { grows = λ u. refl; starts = refl }

module _ (amount : PeriodUsage → ℕ) (m : AuditManifest) (cost added : ℕ)
    (h : IsAmount amount m cost added) where
  abbrev in_bucket : String → Dict PeriodUsage → ℕ
  in_bucket key periods = amount (or_else (lookup key periods) no_period_usage)

  in_bucket-add :
      (periods : Dict PeriodUsage) (k j : String)
      → in_bucket j (add_to_bucket m cost periods k) ≡ in_bucket j periods + when (k == j) added
  in_bucket-add periods k j = elim (Bool-cases (k == j)) [
    | inl e ↦ ground (
      arith,
      lookup-insert k j (add_usage (or_else (lookup k periods) no_period_usage) m cost) periods,
      eq_iff k j,
      h.grows (or_else (lookup k periods) no_period_usage),
    )
    | inr e ↦ ground (
      arith,
      lookup-insert k j (add_usage (or_else (lookup k periods) no_period_usage) m cost) periods,
    )
  ]

  three_buckets :
      (periods : Dict PeriodUsage) (k l n j : String)
      → in_bucket j
          (add_to_bucket m cost (add_to_bucket m cost (add_to_bucket m cost periods k) l) n)
        ≡ in_bucket j periods + when (k == j) added + when (l == j) added + when (n == j) added
  three_buckets periods k l n j =
      in_bucket-add (add_to_bucket m cost (add_to_bucket m cost periods k) l) n j
      ∙ ap (λ t. t + when (n == j) added)
          (in_bucket-add (add_to_bucket m cost periods k) l j
            ∙ ap (λ t. t + when (l == j) added) (in_bucket-add periods k j))

  -- A request adds its amount to what is read for a period exactly if it falls in that period.
  pub with_request-adds :
      (usage : UsageTotals) (at : ℕ) (period : BudgetPeriod) (now : ℕ)
      → amount (usage_for_period (some (with_request usage m cost at)) period now)
        ≡ amount (usage_for_period (some usage) period now) + when (counts_in period at now) added
  unfolding with_request usage_for_period counts_in
  with_request-adds usage at total now = h.grows usage.overall
  with_request-adds usage at day now =
      three_buckets usage.periods (budget_period_key day at) (budget_period_key week at)
        (budget_period_key month at) (budget_period_key day now)
      ∙ rw
          (
            differ (budget_period_key week at) (budget_period_key day now)
                (rw (first_code-week, first_code-day) (omega arith)),
            differ (budget_period_key month at) (budget_period_key day now)
                (rw (first_code-month, first_code-day) (omega arith)),
          )
          (omega arith)
  with_request-adds usage at week now =
      three_buckets usage.periods (budget_period_key day at) (budget_period_key week at)
        (budget_period_key month at) (budget_period_key week now)
      ∙ rw
          (
            differ (budget_period_key day at) (budget_period_key week now)
                (rw (first_code-day, first_code-week) (omega arith)),
            differ (budget_period_key month at) (budget_period_key week now)
                (rw (first_code-month, first_code-week) (omega arith)),
          )
          (omega arith)
  with_request-adds usage at month now =
      three_buckets usage.periods (budget_period_key day at) (budget_period_key week at)
        (budget_period_key month at) (budget_period_key month now)
      ∙ rw
          (
            differ (budget_period_key day at) (budget_period_key month now)
                (rw (first_code-day, first_code-month) (omega arith)),
            differ (budget_period_key week at) (budget_period_key month now)
                (rw (first_code-week, first_code-month) (omega arith)),
          )
          (omega arith)

  amount-no_usage :
      (period : BudgetPeriod) (now : ℕ) → amount (usage_for_period (some no_usage) period now) ≡ 0
  unfolding usage_for_period
  amount-no_usage total now = h.starts
  amount-no_usage day now = h.starts
  amount-no_usage week now = h.starts
  amount-no_usage month now = h.starts

  amount-none :
      (usages : Dict UsageTotals) (id : String) (period : BudgetPeriod) (now : ℕ)
      → amount (usage_for_period (some (or_else (lookup id usages) no_usage)) period now)
        ≡ amount (usage_of usages id period now)
  unfolding usage_for_period
  amount-none usages id period now = elim (Option-cases (lookup id usages)) [
    | inl e ↦ rw e (amount-no_usage period now ∙ sym h.starts)
    | inr (u, e) ↦ rw e refl
  ]

  -- One counter of a map takes the request, the others stay as they are.
  pub accumulate-adds :
      (usages : Dict UsageTotals) (key id : String) (at : ℕ) (period : BudgetPeriod) (now : ℕ)
      → amount (usage_of (accumulate usages key m cost at) id period now)
        ≡ amount (usage_of usages id period now) + when (key == id && counts_in period at now) added
  unfolding accumulate
  accumulate-adds usages key id at period now = elim (Bool-cases (key == id)) [
    | inr other ↦ rw (lookup-insert, other) (omega arith)
    | inl same ↦
        rw (lookup-insert, same, ← (eq_iff key id).0 same)
          (with_request-adds (or_else (lookup key usages) no_usage) at period now
            ∙ ap (λ t. t + when (counts_in period at now) added)
                (amount-none usages key period now))
  ]

  sum_users-insert :
      (usages : Dict UsageTotals) (key : String) (w : UsageTotals) (period : BudgetPeriod) (now : ℕ)
      → sum_users amount (insert key w usages) period now + amount (usage_of usages key period now)
        ≡ sum_users amount usages period now + amount (usage_for_period (some w) period now)
  unfolding usage_for_period
  sum_users-insert [] key w period now = omega (arith, h.starts)
  sum_users-insert ((k, u) ∷ usages) key w period now = elim (Bool-cases (k == key)) [
    | inl same ↦ rw same (omega arith)
    | inr other ↦ rw other (omega (arith, sum_users-insert usages key w period now))
  ]

  -- The sum over all counters of a map takes the request once.
  pub sum_users-adds :
      (usages : Dict UsageTotals) (key : String) (at : ℕ) (period : BudgetPeriod) (now : ℕ)
      → sum_users amount (accumulate usages key m cost at) period now
        ≡ sum_users amount usages period now + when (counts_in period at now) added
  unfolding accumulate
  sum_users-adds usages key at period now =
      let current = or_else (lookup key usages) no_usage in
      omega (
        arith,
        sum_users-insert usages key (with_request current m cost at) period now,
        with_request-adds current at period now,
        amount-none usages key period now,
      )
