-- ===== src/Usage/Restore.antt =====
-- The counters at the start of the proxy, packages/proxy/src/http/usage-restore.ts: those of the
-- snapshot, or those of the audit counted again. The snapshot is an argument, with `none` where there
-- is none or where it is not valid.
mod Expected
pub mod Choice
use molenkopf.Base.{
  ℕ, ◌+◌, String, ◌≡◌, refl, ap, ◌∙◌, Bool, true, false, ◌&&◌, ◌||◌, not, Option, none, some, List,
  [], ◌∷◌, ◌==◌, ltb, nat_eq, if◌then◌else◌, or_else, Dict, lookup, insert, has,
}
use molenkopf.Identity.{IdentityData}
use molenkopf.Runtime.{UsageTotals, AuditClient, AuditManifest, RuntimeState}
use molenkopf.Base.{if-both}
use molenkopf.Usage.{
  with_client, accumulate_set, manifest_cost, no_usage, set_text, manifest_input, manifest_output,
  tokens_of, user_usage_key, identity_user_id_for_audit_id, audit_cursor, record_usage, record_all,
}

-- A snapshot whose maps are valid.
pub record Restored : Type 0 where
  pub usage_by_agent : Dict UsageTotals
  pub usage_by_user : Dict UsageTotals
  pub usage_by_provider : Dict UsageTotals
  pub usage_by_key : Dict UsageTotals
  pub usage_by_team : Dict UsageTotals
  pub usage_snapshot_cursor : Option (ℕ × String)

unfoldable pub reset_usage : RuntimeState → RuntimeState
reset_usage s = record s {
  usage_by_agent = [];
  usage_by_user = [];
  usage_by_provider = [];
  usage_by_key = [];
  usage_by_team = [];
}

abbrev pub with_restored : RuntimeState → Restored → RuntimeState
with_restored s r = record s {
  usage_by_agent = r.usage_by_agent;
  usage_by_user = r.usage_by_user;
  usage_by_provider = r.usage_by_provider;
  usage_by_key = r.usage_by_key;
  usage_by_team = r.usage_by_team;
  usage_snapshot_cursor = r.usage_snapshot_cursor;
}

-- What `schedule` is given of a state.
abbrev pub snapshot_of : RuntimeState → Restored
snapshot_of s = record {
  usage_by_agent = s.usage_by_agent;
  usage_by_user = s.usage_by_user;
  usage_by_provider = s.usage_by_provider;
  usage_by_key = s.usage_by_key;
  usage_by_team = s.usage_by_team;
  usage_snapshot_cursor = s.usage_snapshot_cursor;
}

abbrev pub same_cursor : Option (ℕ × String) → Option (ℕ × String) → Bool
same_cursor none none = true
same_cursor none (some c) = false
same_cursor (some c) none = false
same_cursor (some c) (some d) = nat_eq c.0 d.0 && c.1 == d.1

module _ (sha256 : String → String) where
  abbrev pub latest_cursor : List AuditManifest → Option (ℕ × String)
  latest_cursor [] = none
  latest_cursor (m ∷ []) = some (audit_cursor sha256 m)
  latest_cursor (m ∷ n ∷ ms) = latest_cursor (n ∷ ms)

  abbrev pub client_user : RuntimeState → Option AuditClient → Option String
  client_user s none = none
  client_user s (some client) = elim (set_text client.user_id) [
    | none ↦ none
    | some value ↦ set_text (some (identity_user_id_for_audit_id sha256 s value))
  ]

  abbrev pub expect : IdentityData → Option String → ℕ → Dict ℕ → Dict ℕ
  expect d none tokens expected = expected
  expect d (some user_id) tokens expected =
      if has user_id d.users && ltb 0 tokens
      then insert user_id (or_else (lookup user_id expected) 0 + tokens) expected
      else expected

  abbrev pub expected_of : RuntimeState → IdentityData → List AuditManifest → Dict ℕ → Dict ℕ
  expected_of s d [] expected = expected
  expected_of s d (m ∷ ms) expected =
      expected_of s d ms
        (expect d (client_user s m.client) (manifest_input m + manifest_output m) expected)

  abbrev pub misses : Dict UsageTotals → Dict ℕ → Bool
  misses by_user [] = false
  misses by_user ((user_id, tokens) ∷ expected) =
      ltb (tokens_of (or_else (lookup (user_usage_key user_id) by_user) no_usage).overall) tokens
      || misses by_user expected

  unfoldable pub snapshot_misses_known_user_usage :
      RuntimeState → Restored → List AuditManifest → Bool
  unfolding user_usage_key identity_user_id_for_audit_id
  snapshot_misses_known_user_usage s r ms = elim s.identity [
    | none ↦ false
    | some d ↦ misses r.usage_by_user (expected_of s d ms [])
  ]

  abbrev pub is_latest : Restored → List AuditManifest → Bool
  is_latest r [] = true
  is_latest r (m ∷ ms) = same_cursor r.usage_snapshot_cursor (latest_cursor (m ∷ ms))

  -- The audit is counted again.
  abbrev pub replayed : RuntimeState → List AuditManifest → RuntimeState
  replayed s ms = record (record_all sha256 (reset_usage s) ms) {
    usage_snapshot_cursor = latest_cursor ms;
  }

  unfoldable pub restore_usage : RuntimeState → Option Restored → List AuditManifest → RuntimeState
  unfolding reset_usage snapshot_misses_known_user_usage record_all
  restore_usage s none ms = replayed s ms
  restore_usage s (some r) ms =
      if is_latest r ms && not (snapshot_misses_known_user_usage s r ms)
      then with_restored s r
      else replayed s ms

  with_client-rest :
      (s : RuntimeState) (m : AuditManifest) (cost : ℕ) (client : Option AuditClient)
      → with_restored s (snapshot_of (with_client sha256 s m cost client))
        ≡ with_client sha256 s m cost client
  with_client-rest s m cost none = refl
  with_client-rest s m cost (some client) = refl

  record_usage-rest :
      (s : RuntimeState) (m : AuditManifest)
      → with_restored s (snapshot_of (record_usage sha256 s m)) ≡ record_usage sha256 s m
  unfolding record_usage
  record_usage-rest s m =
      let by_provider =
        accumulate_set sha256 s.usage_by_provider (set_text m.provider_id) m
          (manifest_cost sha256 s m) in
      ap (λ (t : RuntimeState). record t { usage_snapshot_cursor = some (audit_cursor sha256 m) })
        (with_client-rest (record s { usage_by_provider = by_provider }) m
          (manifest_cost sha256 s m) m.client)

  record_all-rest :
      (ms : List AuditManifest) (s t : RuntimeState)
      → with_restored s (snapshot_of t) ≡ t
      → with_restored s (snapshot_of (record_all sha256 t ms)) ≡ record_all sha256 t ms
  unfolding record_all
  record_all-rest [] s t h = h
  record_all-rest (m ∷ ms) s t h = record_all-rest ms s (record_usage sha256 t m) (
      ap (λ (u : RuntimeState). with_restored u (snapshot_of (record_usage sha256 t m))) h
      ∙ record_usage-rest t m)

  -- A snapshot of the counters that the audit gives is as good as counting the audit again: with it
  -- the proxy starts with the same state as without one, whichever of the two it uses.
  pub restore_usage-snapshot_of :
      (s : RuntimeState) (ms : List AuditManifest)
      → restore_usage s (some (snapshot_of (replayed s ms))) ms ≡ restore_usage s none ms
  unfolding restore_usage reset_usage
  restore_usage-snapshot_of s ms =
      if-both (λ (t : RuntimeState). t ≡ replayed s ms)
        (is_latest (snapshot_of (replayed s ms)) ms
          && not (snapshot_misses_known_user_usage s (snapshot_of (replayed s ms)) ms))
        _ _
        (λ _.
          ap (λ (t : RuntimeState). record t { usage_snapshot_cursor = latest_cursor ms })
            (record_all-rest ms s (reset_usage s) refl))
        (λ _. refl)
