-- ===== src/Usage/Restore/Expected.antt =====
-- What the audit expects of a snapshot: for each known user the tokens of the user's requests.
use mathlib.Core.Path.{subst}
use molenkopf.Base.{
  ℕ, ◌+◌, ◌≤◌, String, ◌≡◌, refl, ap, inl, inr, Bool, true, false, ◌&&◌, Option, none, some, List,
  [], ◌∷◌, arith, ◌==◌, eq_iff, eq_refl, ltb, if◌then◌else◌, Bool-cases, Option-cases, or_else,
  Dict, lookup, insert, has, lookup-insert, has-insert, IsDistinct,
}
use molenkopf.Identity.{IdentityData}
use molenkopf.Runtime.{UsageTotals, AuditManifest, RuntimeState}
use molenkopf.Usage.{no_usage, manifest_input, manifest_output, tokens_of, user_usage_key}
use molenkopf.Usage.Restore.{client_user, expect, expected_of, misses}

-- The tokens that the snapshot holds for a user, of all time.
abbrev pub held : Dict UsageTotals → String → ℕ
held by_user u = tokens_of (or_else (lookup (user_usage_key u) by_user) no_usage).overall

abbrev is_user : String → Option String → Bool
is_user u none = false
is_user u (some v) = v == u

module _ (sha256 : String → String) where
  -- The tokens of the user's requests in the audit.
  abbrev pub tokens_for : RuntimeState → String → List AuditManifest → ℕ
  tokens_for s u [] = 0
  tokens_for s u (m ∷ ms) =
      (if is_user u (client_user sha256 s m.client)
        then manifest_input m + manifest_output m
        else 0)
      + tokens_for s u ms

  expect-count :
      (d : IdentityData) (u : String) (user : Option String) (tokens : ℕ) (e : Dict ℕ)
      → or_else (lookup u (expect sha256 d user tokens e)) 0
        ≡ or_else (lookup u e) 0 + (if has u d.users && is_user u user then tokens else 0)
  expect-count d u none tokens e = ground arith
  expect-count d u (some v) tokens e = elim (Bool-cases (v == u)) [
    | inl same ↦
        let known : has v d.users ≡ has u d.users = ap (λ i. has i d.users) ((eq_iff v u).0 same) in
        let held_now : lookup v e ≡ lookup u e = ap (λ i. lookup i e) ((eq_iff v u).0 same) in
        ground (arith, lookup-insert v u (or_else (lookup v e) 0 + tokens) e)
    | inr other ↦ ground (arith, lookup-insert v u (or_else (lookup v e) 0 + tokens) e)
  ]

  pub expected_of-count :
      (s : RuntimeState) (d : IdentityData) (u : String) (ms : List AuditManifest) (e : Dict ℕ)
      → has u d.users ≡ true
      → or_else (lookup u (expected_of sha256 s d ms e)) 0
        ≡ or_else (lookup u e) 0 + tokens_for s u ms
  expected_of-count s d u [] e known = omega arith
  expected_of-count s d u (m ∷ ms) e known =
      let user = client_user sha256 s m.client in
      let tokens = manifest_input m + manifest_output m in
      let later = expected_of-count s d u ms (expect sha256 d user tokens e) known in
      let now = expect-count d u user tokens e in ground arith

  -- Only known users are expected.
  pub expected_of-unknown :
      (s : RuntimeState) (d : IdentityData) (u : String) (ms : List AuditManifest) (e : Dict ℕ)
      → has u d.users ≡ false
      → or_else (lookup u (expected_of sha256 s d ms e)) 0 ≡ or_else (lookup u e) 0
  expected_of-unknown s d u [] e unknown = refl
  expected_of-unknown s d u (m ∷ ms) e unknown =
      let user = client_user sha256 s m.client in
      let tokens = manifest_input m + manifest_output m in
      let later = expected_of-unknown s d u ms (expect sha256 d user tokens e) unknown in
      let now = expect-count d u user tokens e in ground arith

  insert-IsDistinct : (k : String) (n : ℕ) (e : Dict ℕ) → IsDistinct e → IsDistinct (insert k n e)
  insert-IsDistinct k n [] h = (refl, tt)
  insert-IsDistinct k n ((j, w) ∷ e) h = elim (Bool-cases (j == k)) [
    | inl same ↦ rw same h
    | inr other ↦
        rw other
          (ground (arith, has-insert k j n e, eq_iff k j, eq_iff j k), insert-IsDistinct k n e h.1)
  ]

  expect-IsDistinct :
      (d : IdentityData) (user : Option String) (tokens : ℕ) (e : Dict ℕ)
      → IsDistinct e
      → IsDistinct (expect sha256 d user tokens e)
  expect-IsDistinct d none tokens e h = h
  expect-IsDistinct d (some v) tokens e h = elim (Bool-cases (has v d.users && ltb 0 tokens)) [
    | inl counts ↦ rw counts (insert-IsDistinct v (or_else (lookup v e) 0 + tokens) e h)
    | inr off ↦ rw off h
  ]

  pub expected_of-IsDistinct :
      (s : RuntimeState) (d : IdentityData) (ms : List AuditManifest) (e : Dict ℕ)
      → IsDistinct e
      → IsDistinct (expected_of sha256 s d ms e)
  expected_of-IsDistinct s d [] e h = h
  expected_of-IsDistinct s d (m ∷ ms) e h = expected_of-IsDistinct s d ms _ (
      expect-IsDistinct d (client_user sha256 s m.client) (manifest_input m + manifest_output m) e
        h)

  pub misses-none :
      (by_user : Dict UsageTotals) (e : Dict ℕ) (u : String)
      → misses sha256 by_user e ≡ false
      → or_else (lookup u e) 0 ≤ held by_user u
  misses-none by_user [] u h = ground arith
  misses-none by_user ((v, n) ∷ e) u h = elim (Bool-cases (v == u)) [
    | inl same ↦
        let here : held by_user v ≡ held by_user u = ap (held by_user) ((eq_iff v u).0 same) in
        rw same (ground arith)
    | inr other ↦ rw other (misses-none by_user e u (ground arith))
  ]

  pub none-misses :
      (by_user : Dict UsageTotals) (e : Dict ℕ)
      → IsDistinct e
      → ((u : String) → or_else (lookup u e) 0 ≤ held by_user u)
      → misses sha256 by_user e ≡ false
  none-misses by_user [] distinct h = refl
  none-misses by_user ((v, n) ∷ e) distinct h =
      let first = h v in
      let here : n ≤ held by_user v = ground (arith, eq_refl v) in
      let rest = none-misses by_user e distinct.1 (λ u. elim (Bool-cases (v == u)) [
        | inl same ↦
            let fresh : has u e ≡ false =
              subst (λ (i : String). has i e ≡ false) ((eq_iff v u).0 same) distinct.0 in
            elim (Option-cases (lookup u e)) [
              | inl gone ↦ rw gone (omega arith)
              | inr (k, there) ↦ absurd (cc (rw there at fresh))
            ]
        | inr other ↦ let later = h u in ground arith
      ]) in
      ground arith
