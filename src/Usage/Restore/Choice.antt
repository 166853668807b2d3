-- ===== src/Usage/Restore/Choice.antt =====
-- When a snapshot of the counters is used at the start, and when the audit is counted again.
use mathlib.Core.Path.{subst}
use molenkopf.Base.{
  ℕ, ◌≤◌, String, ◌≡◌, refl, sym, ap, ◌∙◌, inl, inr, ◌⊎◌, true, false, ◌&&◌, not, Option, none,
  some, List, [], ◌∷◌, ◌++◌, arith, eq_iff, eq_refl, Bool-cases, Option-cases, has,
}
use molenkopf.Identity.{IdentityData}
use molenkopf.Runtime.{AuditManifest, RuntimeState}
use molenkopf.Usage.{audit_cursor}
use molenkopf.Usage.Restore.{
  Restored, with_restored, same_cursor, latest_cursor, expected_of, misses,
  snapshot_misses_known_user_usage, is_latest, replayed, restore_usage,
}
use molenkopf.Usage.Restore.Expected.{
  held, tokens_for, expected_of-count, expected_of-unknown, expected_of-IsDistinct, misses-none,
  none-misses,
}

module _ (sha256 : String → String) where
  -- The snapshot was written at the last request of the audit, and holds for each known user at least
  -- the tokens of the user's requests in the audit.
  pub record IsUpToDate (s : RuntimeState) (r : Restored) (ms : List AuditManifest) : Type 0 where
    pub latest :
        (front : List AuditManifest) (m : AuditManifest)
        → ms ≡ front ++ m ∷ []
        → r.usage_snapshot_cursor ≡ some (audit_cursor sha256 m)
    pub complete :
        (d : IdentityData) (u : String)
        → s.identity ≡ some d
        → has u d.users ≡ true
        → tokens_for sha256 s u ms ≤ held r.usage_by_user u

  same_cursor-eq :
      (a : Option (ℕ × String)) (c : ℕ × String) → same_cursor a (some c) ≡ true → a ≡ some c
  same_cursor-eq none c h = absurd (cc h)
  same_cursor-eq (some a) c h =
      let first : a.0 ≡ c.0 = ground arith in
      let second : a.1 ≡ c.1 = (eq_iff a.1 c.1).0 (ground arith) in cc (first, second)

  same_cursor_self :
      (a : Option (ℕ × String)) (c : ℕ × String) → a ≡ some c → same_cursor a (some c) ≡ true
  same_cursor_self a c e = rw e (ground (arith, eq_refl c.1))

  latest_cursor-last :
      (front : List AuditManifest) (m : AuditManifest)
      → latest_cursor sha256 (front ++ m ∷ []) ≡ some (audit_cursor sha256 m)
  latest_cursor-last [] m = refl
  latest_cursor-last (x ∷ []) m = refl
  latest_cursor-last (x ∷ y ∷ front) m = latest_cursor-last (y ∷ front) m

  last_of :
      (x : AuditManifest) (xs : List AuditManifest)
      → (front : List AuditManifest) × (m : AuditManifest) × (x ∷ xs ≡ front ++ m ∷ [])
  last_of x [] = ([], x, refl)
  last_of x (y ∷ ys) =
      let (front, m, e) = last_of y ys in (x ∷ front, m, ap (λ (l : List AuditManifest). x ∷ l) e)

  is_latest-last :
      (r : Restored) (front : List AuditManifest) (m : AuditManifest)
      → is_latest sha256 r (front ++ m ∷ [])
        ≡ same_cursor r.usage_snapshot_cursor (some (audit_cursor sha256 m))
  is_latest-last r [] m = refl
  is_latest-last r (x ∷ front) m =
      ap (same_cursor r.usage_snapshot_cursor) (latest_cursor-last (x ∷ front) m)

  is_latest-latest :
      (r : Restored) (ms front : List AuditManifest) (m : AuditManifest)
      → is_latest sha256 r ms ≡ true
      → ms ≡ front ++ m ∷ []
      → r.usage_snapshot_cursor ≡ some (audit_cursor sha256 m)
  is_latest-latest r ms front m h e =
      same_cursor-eq r.usage_snapshot_cursor (audit_cursor sha256 m)
        (sym (is_latest-last r front m) ∙ rw e at h)

  latest-is_latest :
      (r : Restored) (ms : List AuditManifest)
      → ((front : List AuditManifest) (m : AuditManifest)
          → ms ≡ front ++ m ∷ []
          → r.usage_snapshot_cursor ≡ some (audit_cursor sha256 m))
      → is_latest sha256 r ms ≡ true
  latest-is_latest r [] h = refl
  latest-is_latest r (x ∷ xs) h =
      let (front, m, e) = last_of x xs in
      subst (λ (l : List AuditManifest). is_latest sha256 r l ≡ true) (sym e)
        (is_latest-last r front m
          ∙ same_cursor_self r.usage_snapshot_cursor (audit_cursor sha256 m) (h front m e))

  snapshot_misses-some :
      (s : RuntimeState) (r : Restored) (ms : List AuditManifest) (d : IdentityData)
      → s.identity ≡ some d
      → snapshot_misses_known_user_usage sha256 s r ms
        ≡ misses sha256 r.usage_by_user (expected_of sha256 s d ms [])
  unfolding snapshot_misses_known_user_usage
  snapshot_misses-some s r ms d e =
      ap
        (λ (o : Option IdentityData). elim o [
          | none ↦ false
          | some d ↦ misses sha256 r.usage_by_user (expected_of sha256 s d ms [])
        ])
        e

  snapshot_complete :
      (s : RuntimeState) (r : Restored) (ms : List AuditManifest) (d : IdentityData) (u : String)
      → snapshot_misses_known_user_usage sha256 s r ms ≡ false
      → s.identity ≡ some d
      → has u d.users ≡ true
      → tokens_for sha256 s u ms ≤ held r.usage_by_user u
  snapshot_complete s r ms d u h e known =
      let count = expected_of-count sha256 s d u ms [] known in
      let bound =
        misses-none sha256 r.usage_by_user (expected_of sha256 s d ms []) u
          (sym (snapshot_misses-some s r ms d e) ∙ h) in
      ground arith

  complete-snapshot :
      (s : RuntimeState) (r : Restored) (ms : List AuditManifest)
      → ((d : IdentityData) (u : String)
          → s.identity ≡ some d
          → has u d.users ≡ true
          → tokens_for sha256 s u ms ≤ held r.usage_by_user u)
      → snapshot_misses_known_user_usage sha256 s r ms ≡ false
  unfolding snapshot_misses_known_user_usage
  complete-snapshot s r ms h = elim (Option-cases s.identity) [
    | inl e ↦ rw e refl
    | inr (d, e) ↦
        snapshot_misses-some s r ms d e
        ∙ (none-misses sha256 r.usage_by_user (expected_of sha256 s d ms [])
            (expected_of-IsDistinct sha256 s d ms [] tt)
            (λ u. elim (Bool-cases (has u d.users)) [
              | inl known ↦
                  let count = expected_of-count sha256 s d u ms [] known in
                  let bound = h d u e known in ground arith
              | inr unknown ↦
                  let count = expected_of-unknown sha256 s d u ms [] unknown in ground arith
            ]))
  ]

  -- With a snapshot, the proxy either starts with the snapshot's counters, and then the snapshot was
  -- written at the last request of the audit, if there is one, and holds for each known user at least
  -- the tokens of the user's requests in the audit; or it counts the audit again, and then this is not
  -- so.
  pub restore_usage-IsUpToDate :
      (s : RuntimeState) (r : Restored) (ms : List AuditManifest)
      → (IsUpToDate s r ms × (restore_usage sha256 s (some r) ms ≡ with_restored s r))
        ⊎ (¬ IsUpToDate s r ms × (restore_usage sha256 s (some r) ms ≡ replayed sha256 s ms))
  unfolding restore_usage
  restore_usage-IsUpToDate s r ms =
      elim (Bool-cases
        (is_latest sha256 r ms && not (snapshot_misses_known_user_usage sha256 s r ms))) [
          | inl used ↦ inl (
            record {
              latest = λ front m. is_latest-latest r ms front m (ground arith);
              complete = λ d u. snapshot_complete s r ms d u (ground arith);
            },
            rw used refl,
          )
          | inr again ↦ inr (
            λ h.
                let latest = latest-is_latest r ms h.latest in
                let complete = complete-snapshot s r ms h.complete in absurd (ground arith),
            rw again refl,
          )
        ]
