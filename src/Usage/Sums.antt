-- ===== src/Usage/Sums.antt =====
-- What is read of the counters after any number of requests.
use molenkopf.Base.{ℕ, ◌+◌, ◌*◌, String, ◌≡◌, refl, ◌∙◌, List, [], ◌∷◌, arith, is_some}
use molenkopf.Identity.{BudgetPeriod}
use molenkopf.Runtime.{AuditManifest, RuntimeState}
use molenkopf.Usage.{
  tokens_of, manifest_cost, record_usage, record_all, key_tokens_used, team_tokens_used,
  org_tokens_used,
}
use molenkopf.Usage.Bucket.{tokens_of-IsAmount, when}
use molenkopf.Usage.Ledger.{
  tokens, sum_in, is_text, occurrences, billed_key, billed_teams, billed_user, record_usage-key,
  record_usage-team, record_usage-org, billed_user-stays,
}

module _ (sha256 : String → String) where
  -- After any sequence of requests, the tokens that count against a key in a period are those before
  -- and the sum of the tokens of the requests that were made with the key and fall in the period.
  pub key_tokens_used-record_all :
      (ms : List AuditManifest) (s : RuntimeState) (id : String) (period : BudgetPeriod) (now : ℕ)
      → key_tokens_used (record_all sha256 s ms) id period now
        ≡ key_tokens_used s id period now
          + sum_in sha256
              (λ m. when (is_text (billed_key sha256 m) id) (tokens sha256 m))
              period
              now
              ms
  unfolding record_all
  key_tokens_used-record_all [] s id period now = omega arith
  key_tokens_used-record_all (m ∷ ms) s id period now =
      key_tokens_used-record_all ms (record_usage sha256 s m) id period now
      ∙ omega (
        arith,
        record_usage-key sha256 tokens_of s m (tokens sha256 m)
            (tokens_of-IsAmount m (manifest_cost sha256 s m)) id period now,
      )

  -- After any sequence of requests, the tokens that count against a team in a period are those before
  -- and the sum of the tokens of the requests that fall in the period, each as often as the request's
  -- client lists the team.
  pub team_tokens_used-record_all :
      (ms : List AuditManifest) (s : RuntimeState) (id : String) (period : BudgetPeriod) (now : ℕ)
      → team_tokens_used (record_all sha256 s ms) id period now
        ≡ team_tokens_used s id period now
          + sum_in sha256
              (λ m. occurrences (billed_teams sha256 m) id * tokens sha256 m)
              period
              now
              ms
  unfolding record_all
  team_tokens_used-record_all [] s id period now = omega arith
  team_tokens_used-record_all (m ∷ ms) s id period now =
      team_tokens_used-record_all ms (record_usage sha256 s m) id period now
      ∙ omega (
        arith,
        record_usage-team sha256 tokens_of s m (tokens sha256 m)
            (tokens_of-IsAmount m (manifest_cost sha256 s m)) id period now,
      )

  billed_sum-stays :
      (s : RuntimeState) (m : AuditManifest) (period : BudgetPeriod) (now : ℕ)
      (ms : List AuditManifest)
      → sum_in sha256
          (λ x. when (is_some (billed_user sha256 (record_usage sha256 s m) x)) (tokens sha256 x))
          period
          now
          ms
        ≡ sum_in sha256
            (λ x. when (is_some (billed_user sha256 s x)) (tokens sha256 x))
            period
            now
            ms
  billed_sum-stays s m period now [] = refl
  billed_sum-stays s m period now (x ∷ xs) =
      rw (billed_user-stays sha256 s m x.client, billed_sum-stays s m period now xs)

  -- After any sequence of requests, the tokens of the whole organization in a period are those before and the sum of the tokens of the
  -- requests that fall in the period and are billed to a user.
  pub org_tokens_used-record_all :
      (ms : List AuditManifest) (s : RuntimeState) (period : BudgetPeriod) (now : ℕ)
      → org_tokens_used (record_all sha256 s ms) period now
        ≡ org_tokens_used s period now
          + sum_in sha256
              (λ m. when (is_some (billed_user sha256 s m)) (tokens sha256 m))
              period
              now
              ms
  unfolding record_all
  org_tokens_used-record_all [] s period now = omega arith
  org_tokens_used-record_all (m ∷ ms) s period now =
      org_tokens_used-record_all ms (record_usage sha256 s m) period now
      ∙ rw (billed_sum-stays s m period now ms) (
          omega (
            arith,
            record_usage-org sha256 tokens_of s m (tokens sha256 m)
                (tokens_of-IsAmount m (manifest_cost sha256 s m)) period now,
          ))
