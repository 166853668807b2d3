-- ===== src/Usage/Ledger.antt =====
-- The counters are the sums over the recorded requests.
use molenkopf.Base.{
  ℕ, ◌+◌, ◌*◌, String, ◌≡◌, refl, ap, ◌∙◌, Bool, false, Option, none, some, List, [], ◌∷◌, arith,
  ◌==◌, Bool-cases, or_else, is_some, ◌>>=◌, Dict,
}
use molenkopf.Identity.{BudgetPeriod}
use molenkopf.Runtime.{PeriodUsage, UsageTotals, AuditClient, AuditManifest, RuntimeState}
use molenkopf.Usage.{
  manifest_input, manifest_output, set_text, accumulate, usage_of, sum_users, accumulate_set,
  accumulate_each, with_client, user_key, usage_user_id, identity_user_id_for_audit_id,
  manifest_cost, record_usage,
}
use molenkopf.Usage.Bucket.{IsAmount, counts_in, when, accumulate-adds, sum_users-adds}

abbrev pub is_text : Option String → String → Bool
is_text none id = false
is_text (some s) id = s == id

-- How often a text stands in a list.
abbrev pub occurrences : List String → String → ℕ
occurrences [] id = 0
occurrences (x ∷ xs) id = when (x == id) 1 + occurrences xs id

module _ (sha256 : String → String) where
  abbrev pub tokens : AuditManifest → ℕ
  tokens m = manifest_input m + manifest_output m

  -- The key that a request is billed to.
  abbrev pub billed_key : AuditManifest → Option String
  billed_key m = do client ← m.client; set_text client.key_id

  abbrev pub billed_teams : AuditManifest → List String
  billed_teams m = elim m.client [ none ↦ [] | some client ↦ or_else client.team_ids [] ]

  -- The counter of the user that a request is billed to.
  abbrev pub billed_user : RuntimeState → AuditManifest → Option String
  billed_user s m = do client ← m.client; user_key sha256 s client

  -- The sum of an amount over the requests in a period.
  abbrev pub sum_in : (AuditManifest → ℕ) → BudgetPeriod → ℕ → List AuditManifest → ℕ
  sum_in amount period now [] = 0
  sum_in amount period now (m ∷ ms) =
      when (counts_in period m.timestamp now) (amount m) + sum_in amount period now ms

  with_client-by_key :
      (s : RuntimeState) (m : AuditManifest) (cost : ℕ) (c : Option AuditClient)
      → (with_client sha256 s m cost c).usage_by_key
        ≡ accumulate_set sha256 s.usage_by_key (do client ← c; set_text client.key_id) m cost
  with_client-by_key s m cost none = refl
  with_client-by_key s m cost (some client) = refl

  with_client-by_team :
      (s : RuntimeState) (m : AuditManifest) (cost : ℕ) (c : Option AuditClient)
      → (with_client sha256 s m cost c).usage_by_team
        ≡ accumulate_each sha256 s.usage_by_team
            (elim c [ none ↦ [] | some client ↦ or_else client.team_ids [] ])
            m
            cost
  with_client-by_team s m cost none = refl
  with_client-by_team s m cost (some client) = refl

  with_client-by_user :
      (s : RuntimeState) (m : AuditManifest) (cost : ℕ) (c : Option AuditClient)
      → (with_client sha256 s m cost c).usage_by_user
        ≡ accumulate_set sha256 s.usage_by_user (do client ← c; user_key sha256 s client) m cost
  with_client-by_user s m cost none = refl
  with_client-by_user s m cost (some client) = refl

  with_client-identity :
      (s : RuntimeState) (m : AuditManifest) (cost : ℕ) (c : Option AuditClient)
      → (with_client sha256 s m cost c).identity ≡ s.identity
  with_client-identity s m cost none = refl
  with_client-identity s m cost (some client) = refl

  module _ (amount : PeriodUsage → ℕ) (m : AuditManifest) (cost added : ℕ)
      (h : IsAmount amount m cost added) where
    accumulate_set-adds :
        (usages : Dict UsageTotals) (key : Option String) (id : String) (period : BudgetPeriod)
        (now : ℕ)
        → amount (usage_of (accumulate_set sha256 usages key m cost) id period now)
          ≡ amount (usage_of usages id period now)
            + when (counts_in period m.timestamp now) (when (is_text key id) added)
    accumulate_set-adds usages none id period now =
        ground (arith, Bool-cases (counts_in period m.timestamp now))
    accumulate_set-adds usages (some key) id period now =
        accumulate-adds amount m cost added h usages key id m.timestamp period now
        ∙ ground (arith, Bool-cases (key == id), Bool-cases (counts_in period m.timestamp now))

    accumulate_each-adds :
        (usages : Dict UsageTotals) (keys : List String) (id : String) (period : BudgetPeriod)
        (now : ℕ)
        → amount (usage_of (accumulate_each sha256 usages keys m cost) id period now)
          ≡ amount (usage_of usages id period now)
            + when (counts_in period m.timestamp now) (occurrences keys id * added)
    accumulate_each-adds usages [] id period now =
        ground (arith, Bool-cases (counts_in period m.timestamp now))
    accumulate_each-adds usages (key ∷ keys) id period now =
        accumulate_each-adds (accumulate usages key m cost m.timestamp) keys id period now
        ∙ rw (accumulate-adds amount m cost added h usages key id m.timestamp period now)
            (grind (arith, Bool-cases (key == id), Bool-cases (counts_in period m.timestamp now)))

    sum_users-set :
        (usages : Dict UsageTotals) (key : Option String) (period : BudgetPeriod) (now : ℕ)
        → sum_users amount (accumulate_set sha256 usages key m cost) period now
          ≡ sum_users amount usages period now
            + when (counts_in period m.timestamp now) (when (is_some key) added)
    sum_users-set usages none period now =
        ground (arith, Bool-cases (counts_in period m.timestamp now))
    sum_users-set usages (some key) period now =
        sum_users-adds amount m cost added h usages key m.timestamp period now

  pub record_usage-key :
      (amount : PeriodUsage → ℕ) (s : RuntimeState) (m : AuditManifest) (added : ℕ)
      → IsAmount amount m (manifest_cost sha256 s m) added
      → (id : String) (period : BudgetPeriod) (now : ℕ)
      → amount (usage_of (record_usage sha256 s m).usage_by_key id period now)
        ≡ amount (usage_of s.usage_by_key id period now)
          + when (counts_in period m.timestamp now) (when (is_text (billed_key m) id) added)
  unfolding record_usage
  record_usage-key amount s m added h id period now =
      ap (λ usages. amount (usage_of usages id period now))
        (with_client-by_key
          (record s {
            usage_by_provider =
                accumulate_set sha256 s.usage_by_provider (set_text m.provider_id) m
                  (manifest_cost sha256 s m);
          })
          m (manifest_cost sha256 s m) m.client)
      ∙ accumulate_set-adds amount m (manifest_cost sha256 s m) added h s.usage_by_key
          (billed_key m) id period now

  pub record_usage-team :
      (amount : PeriodUsage → ℕ) (s : RuntimeState) (m : AuditManifest) (added : ℕ)
      → IsAmount amount m (manifest_cost sha256 s m) added
      → (id : String) (period : BudgetPeriod) (now : ℕ)
      → amount (usage_of (record_usage sha256 s m).usage_by_team id period now)
        ≡ amount (usage_of s.usage_by_team id period now)
          + when (counts_in period m.timestamp now) (occurrences (billed_teams m) id * added)
  unfolding record_usage
  record_usage-team amount s m added h id period now =
      ap (λ usages. amount (usage_of usages id period now))
        (with_client-by_team
          (record s {
            usage_by_provider =
                accumulate_set sha256 s.usage_by_provider (set_text m.provider_id) m
                  (manifest_cost sha256 s m);
          })
          m (manifest_cost sha256 s m) m.client)
      ∙ accumulate_each-adds amount m (manifest_cost sha256 s m) added h s.usage_by_team
          (billed_teams m) id period now

  abbrev by_provider : RuntimeState → AuditManifest → RuntimeState
  by_provider s m = record s {
    usage_by_provider =
        accumulate_set sha256 s.usage_by_provider (set_text m.provider_id) m
          (manifest_cost sha256 s m);
  }

  -- The sum over all users takes the request once, if it is billed to a user.
  pub record_usage-org :
      (amount : PeriodUsage → ℕ) (s : RuntimeState) (m : AuditManifest) (added : ℕ)
      → IsAmount amount m (manifest_cost sha256 s m) added
      → (period : BudgetPeriod) (now : ℕ)
      → sum_users amount (record_usage sha256 s m).usage_by_user period now
        ≡ sum_users amount s.usage_by_user period now
          + when (counts_in period m.timestamp now) (when (is_some (billed_user s m)) added)
  unfolding record_usage user_key usage_user_id identity_user_id_for_audit_id
  record_usage-org amount s m added h period now =
      ap (λ usages. sum_users amount usages period now)
        (with_client-by_user (by_provider s m) m (manifest_cost sha256 s m) m.client)
      ∙ sum_users-set amount m (manifest_cost sha256 s m) added h s.usage_by_user (billed_user s m)
          period now

  with_client-user_key :
      (s : RuntimeState) (m : AuditManifest) (cost : ℕ) (c : Option AuditClient)
      (client : AuditClient)
      → user_key sha256 (with_client sha256 s m cost c) client ≡ user_key sha256 s client
  unfolding user_key usage_user_id identity_user_id_for_audit_id
  with_client-user_key s m cost none client = refl
  with_client-user_key s m cost (some c) client = refl

  pub billed_user-stays :
      (s : RuntimeState) (m : AuditManifest) (c : Option AuditClient)
      → (do client ← c; user_key sha256 (record_usage sha256 s m) client)
        ≡ (do client ← c; user_key sha256 s client)
  unfolding record_usage user_key usage_user_id identity_user_id_for_audit_id
  billed_user-stays s m none = refl
  billed_user-stays s m (some client) =
      with_client-user_key (by_provider s m) m (manifest_cost sha256 s m) m.client client
