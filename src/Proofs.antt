-- ===== src/Proofs.antt =====
-- The proofs that an import of credentials was previewed, packages/proxy/src/http/runtime-auth-proof.ts.
-- The random token, the digest of the body that is previewed, and the clock are arguments.
pub mod Laws
pub mod Tests
use molenkopf.Base.{
  ℕ, zero, suc, ◌+◌, ◌-◌, ◌*◌, ◌/◌, ◌≤◌, ◌<◌, String, ◌≡◌, refl, sym, ap, ◌∙◌, ◌≢◌, ◌↔◌, ◌⊎◌, inl,
  inr, Bool, true, false, ◌&&◌, ◌||◌, not, Option, none, some, List, [], ◌∷◌, ◌++◌, map, arith,
  ◌==◌, eq_iff, eq_refl, ltb, leb, nat_eq, if◌then◌else◌, Bool-cases, Option-cases, or_else,
  or_option, is_some, ◌>>=◌, Result, ok, fail, length, take, drop, filter, find, any, all, All,
  length-append, includes, includes-filter, includes-append, other_than, unique, includes-unique,
  IsUnique, filter-IsUnique, unique-IsUnique, all_mono, all-filter, all-of_includes,
  all-filter_self, all-const, filter-all, Dict, lookup, insert, erase, values, lookup-insert,
  lookup-erase, has, has-erase, all_rows, erase_all, map_values, is_empty, is_space, trim, size,
  every_char, is_digit, is_letter, is_id_char, is_slug,
}

pub record Proof : Type 0 where
  pub digest : String
  pub expires_at : ℕ

abbrev pub proof_ttl_ms : ℕ
proof_ttl_ms = 5 * 60 * 1000

unfoldable pub clear_expired_proofs : ℕ → Dict Proof → Dict Proof
clear_expired_proofs now [] = []
clear_expired_proofs now ((token, proof) ∷ proofs) =
    if leb proof.expires_at now
    then clear_expired_proofs now proofs
    else (token, proof) ∷ clear_expired_proofs now proofs

unfoldable pub issue_runtime_auth_proof : ℕ → String → String → Dict Proof → Dict Proof
unfolding clear_expired_proofs
issue_runtime_auth_proof now token digest proofs =
    insert token (record { digest = digest; expires_at = now + proof_ttl_ms })
      (clear_expired_proofs now proofs)

abbrev accepts : ℕ → String → Option Proof → Bool
accepts now digest none = false
accepts now digest (some proof) = ltb now proof.expires_at && proof.digest == digest

-- Whether the proof is accepted; the token is used up in any case.
unfoldable pub consume_runtime_auth_proof : ℕ → String → String → Dict Proof → Dict Proof × Bool
unfolding clear_expired_proofs
consume_runtime_auth_proof now token digest proofs =
    if is_empty token
    then (clear_expired_proofs now proofs, false)
    else (clear_expired_proofs now (erase token proofs), accepts now digest (lookup token proofs))

-- What requests do with the proofs, one after another.
pub data Use : Type 0 where
  issue : ℕ → String → String → Use
  consume : ℕ → String → String → Use

abbrev pub time_of : Use → ℕ
time_of (issue now token digest) = now
time_of (consume now token digest) = now

abbrev pub token_of : Use → String
token_of (issue now token digest) = token
token_of (consume now token digest) = token

abbrev pub apply_use : Dict Proof → Use → Dict Proof
apply_use proofs (issue now token digest) = issue_runtime_auth_proof now token digest proofs
apply_use proofs (consume now token digest) = (consume_runtime_auth_proof now token digest proofs).0

unfoldable pub apply_uses : Dict Proof → List Use → Dict Proof
unfolding issue_runtime_auth_proof consume_runtime_auth_proof
apply_uses proofs [] = proofs
apply_uses proofs (u ∷ us) = apply_uses (apply_use proofs u) us
