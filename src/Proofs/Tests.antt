-- ===== src/Proofs/Tests.antt =====
-- The theorems on the proofs at two tokens.
use molenkopf.Base.{◌+◌, ◌≡◌, refl, false, ◌&&◌, List, [], ◌∷◌, ◌==◌, ltb}
use molenkopf.Proofs.{
  proof_ttl_ms, issue_runtime_auth_proof, consume_runtime_auth_proof, Use, issue, consume,
  apply_uses,
}
use molenkopf.Proofs.Laws.{consume-issue, consume-consume}

abbrev between : List Use
between = issue 2000 "t2" "d2" ∷ consume 3000 "t2" "d3" ∷ []

consume-issue_example :
    (consume_runtime_auth_proof 4000 "t1" "d1"
      (apply_uses (issue_runtime_auth_proof 1000 "t1" "d1" []) between)).1
    ≡ (ltb 4000 (1000 + proof_ttl_ms) && "d1" == "d1")
consume-issue_example = consume-issue "t1" "d1" "d1" 1000 4000 between [] refl refl

consume-consume_example :
    (consume_runtime_auth_proof 4000 "t1" "d1" (
      apply_uses
        (consume_runtime_auth_proof 1500 "t1" "d1" (issue_runtime_auth_proof 1000 "t1" "d1" [])).0
        between)).1
    ≡ false
consume-consume_example =
    consume-consume "t1" "d1" "d1" 1500 4000 between (issue_runtime_auth_proof 1000 "t1" "d1" [])
      refl
