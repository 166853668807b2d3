-- ===== src/Proofs/Laws.antt =====
-- A proof is good once, for its body, until it expires.
use molenkopf.Base.{
  has, ℕ, ◌+◌, ◌<◌, String, ◌≡◌, refl, inl, inr, Bool, true, false, ◌&&◌, not, some, List, [], ◌∷◌,
  arith, ◌==◌, eq_refl, ltb, Bool-cases, Option-cases, any, all, Dict, lookup, erase, lookup-insert,
  lookup-erase, is_empty,
}
use molenkopf.Proofs.{
  Proof, proof_ttl_ms, clear_expired_proofs, issue_runtime_auth_proof, consume_runtime_auth_proof,
  Use, issue, consume, time_of, token_of, apply_use, apply_uses,
}

clear-keeps :
    (now : ℕ) (t : String) (proofs : Dict Proof) {p : Proof}
    → lookup t proofs ≡ some p
    → now < p.expires_at
    → lookup t (clear_expired_proofs now proofs) ≡ some p
unfolding clear_expired_proofs
clear-keeps now t [] h later = h
clear-keeps now t ((s, q) ∷ proofs) {p} h later = elim (Bool-cases (s == t)) [
  | inl e ↦ let same : q ≡ p = ground arith in ground arith
  | inr e ↦ ground (arith, clear-keeps now t proofs {p = p})
]

clear-lacks :
    (now : ℕ) (t : String) (proofs : Dict Proof)
    → has t proofs ≡ false
    → has t (clear_expired_proofs now proofs) ≡ false
unfolding clear_expired_proofs
clear-lacks now t [] h = refl
clear-lacks now t ((s, q) ∷ proofs) h = ground (arith, clear-lacks now t proofs)

-- Another use, in time, leaves a proof as it is.
apply_use-keeps :
    (u : Use) (t : String) (proofs : Dict Proof) {p : Proof}
    → lookup t proofs ≡ some p
    → time_of u < p.expires_at
    → (token_of u == t) ≡ false
    → lookup t (apply_use proofs u) ≡ some p
unfolding issue_runtime_auth_proof consume_runtime_auth_proof
apply_use-keeps (issue now token digest) t proofs {p} h early other = ground (
  arith,
  lookup-insert token t (record { digest = digest; expires_at = now + proof_ttl_ms })
      (clear_expired_proofs now proofs),
  clear-keeps now t proofs {p = p},
)
apply_use-keeps (consume now token digest) t proofs {p} h early other =
    elim (Bool-cases (is_empty token)) [
      | inl e ↦
          rw (e, apply_use, consume_runtime_auth_proof) (clear-keeps now t proofs {p = p} h early)
      | inr e ↦
          rw (e, apply_use, consume_runtime_auth_proof)
            (clear-keeps now t (erase token proofs) {p = p}
              (ground (arith, lookup-erase token t proofs)) early)
    ]

-- The uses are of other tokens, and all before a time.
abbrev pub leaves : String → ℕ → Use → Bool
leaves t before u = not (token_of u == t) && ltb (time_of u) before

apply_uses-keeps :
    (us : List Use) (t : String) (proofs : Dict Proof) {p : Proof}
    → lookup t proofs ≡ some p
    → all (leaves t p.expires_at) us ≡ true
    → lookup t (apply_uses proofs us) ≡ some p
unfolding apply_uses
apply_uses-keeps [] t proofs h early = h
apply_uses-keeps (u ∷ us) t proofs {p} h early =
    apply_uses-keeps us t (apply_use proofs u) {p = p}
      (apply_use-keeps u t proofs {p = p} h (ground arith) (ground arith)) (ground arith)

-- A proof that was issued for a body, where until then only other tokens were used and all before its
-- time was up, is accepted exactly for a body of the same digest and before its time is up.
pub consume-issue :
    (t digest other : String) (now later : ℕ) (us : List Use) (proofs : Dict Proof)
    → is_empty t ≡ false
    → all (leaves t (now + proof_ttl_ms)) us ≡ true
    → (consume_runtime_auth_proof later t other
        (apply_uses (issue_runtime_auth_proof now t digest proofs) us)).1
      ≡ (ltb later (now + proof_ttl_ms) && digest == other)
unfolding consume_runtime_auth_proof issue_runtime_auth_proof
consume-issue t digest other now later us proofs named early =
    let fresh = issue_runtime_auth_proof now t digest proofs in
    let stored : lookup t fresh
        ≡ some (record { digest = digest; expires_at = now + proof_ttl_ms }) =
      ground (
        arith,
        eq_refl t,
        lookup-insert t t (record { digest = digest; expires_at = now + proof_ttl_ms })
            (clear_expired_proofs now proofs),
      ) in
    rw
      (
        named,
        apply_uses-keeps us t fresh
            {p = record { digest = digest; expires_at = now + proof_ttl_ms }} stored early,
      )
      refl

apply_use-lacks :
    (u : Use) (t : String) (proofs : Dict Proof)
    → has t proofs ≡ false
    → (token_of u == t) ≡ false
    → has t (apply_use proofs u) ≡ false
unfolding issue_runtime_auth_proof consume_runtime_auth_proof
apply_use-lacks (issue now token digest) t proofs h other = ground (
  arith,
  lookup-insert token t (record { digest = digest; expires_at = now + proof_ttl_ms })
      (clear_expired_proofs now proofs),
  clear-lacks now t proofs h,
)
apply_use-lacks (consume now token digest) t proofs h other = elim (Bool-cases (is_empty token)) [
  | inl e ↦ rw (e, apply_use, consume_runtime_auth_proof) (clear-lacks now t proofs h)
  | inr e ↦
      rw (e, apply_use, consume_runtime_auth_proof)
        (clear-lacks now t (erase token proofs) (ground (arith, lookup-erase token t proofs)))
]

apply_uses-lacks :
    (us : List Use) (t : String) (proofs : Dict Proof)
    → has t proofs ≡ false
    → any (λ u. token_of u == t) us ≡ false
    → has t (apply_uses proofs us) ≡ false
unfolding apply_uses
apply_uses-lacks [] t proofs h other = h
apply_uses-lacks (u ∷ us) t proofs h other =
    apply_uses-lacks us t (apply_use proofs u) (apply_use-lacks u t proofs h (ground arith))
      (ground arith)

-- A token that was presented is not accepted again, accepted or not, whatever is done with other
-- tokens in between.
pub consume-consume :
    (t first second : String) (now later : ℕ) (us : List Use) (proofs : Dict Proof)
    → any (λ u. token_of u == t) us ≡ false
    → (consume_runtime_auth_proof later t second
        (apply_uses (consume_runtime_auth_proof now t first proofs).0 us)).1
      ≡ false
unfolding consume_runtime_auth_proof
consume-consume t first second now later us proofs other = elim (Bool-cases (is_empty t)) [
  | inl e ↦ rw e refl
  | inr e ↦
      let gone =
        apply_uses-lacks us t (clear_expired_proofs now (erase t proofs))
          (clear-lacks now t (erase t proofs) (ground (arith, eq_refl t, lookup-erase t t proofs)))
          other in
      rw e (
        ground (
          arith,
          Option-cases (lookup t (apply_uses (clear_expired_proofs now (erase t proofs)) us)),
        ))
]
