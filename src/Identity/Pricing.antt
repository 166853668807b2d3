-- ===== src/Identity/Pricing.antt =====
-- The cost of a request in micro-euros, packages/core/src/identity/pricing.ts. `Math.round` of the
-- exact quotient: the source divides in floating point.
use molenkopf.Base.{ℕ, ◌+◌, ◌*◌, ◌/◌, Option, none, some}
use molenkopf.Identity.{ProviderPrice}

unfoldable pub cost_eur : Option ProviderPrice → ℕ → ℕ → ℕ
cost_eur none input_tokens output_tokens = 0
cost_eur (some price) input_tokens output_tokens =
    (input_tokens * price.in_per_mtok + output_tokens * price.out_per_mtok + 500000) / 1000000
