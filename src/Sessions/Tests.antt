-- ===== src/Sessions/Tests.antt =====
-- The theorems on session tokens, at a runtime with short texts.
use molenkopf.Base.{ℕ, String, ◌≡◌, refl, Option, none, some, [], ◌∷◌, ◌==◌, if◌then◌else◌}
use Prim.Native.String
use molenkopf.Base.{strip_prefix}
use molenkopf.Sessions.Parts.{split_dot, join_dot, no_dot}
use molenkopf.Sessions.{
  Number, natural, not_finite, Fields, SessionRuntime, default_ttl_ms, sign_session,
  verify_session_payload, parse_payload, legacy_payload,
}
use molenkopf.Sessions.Laws.{
  IsFaithful, IsSigned, verify_session_payload-sign_session, verify_session_payload-IsSigned,
}

abbrev ada_json : String → ℕ → ℕ → String
ada_json u v e = String.◌++◌ "{" u

abbrev ada_fields : String → Option Fields
ada_fields text =
    if text == "{ada"
    then some (record { u = some "ada"; v = natural 3; e = natural 43201000 })
    else none

abbrev test_number : String → Number
test_number text =
    if text == "7" then natural 7 else if text == "90" then natural 90 else not_finite

abbrev test_runtime : SessionRuntime
test_runtime = record {
  hmac_sha256 = λ body secret. String.◌++◌ secret body;
  to_base64url = λ s. String.◌++◌ "_" s;
  from_base64url = λ s. if s == "_{ada" then "{ada" else s;
  to_json = ada_json;
  parse_json = ada_fields;
  to_number = test_number;
}

ada-IsFaithful : IsFaithful test_runtime "key" "ada" 3 43201000
unfolding strip_prefix no_dot
ada-IsFaithful = record {
  body_plain = refl;
  body_filled = refl;
  digest_plain = refl;
  digest_filled = refl;
  decoded = refl;
  braced = refl;
  parsed = refl;
}

verify_session_payload-sign_session_example :
    verify_session_payload test_runtime
      (some (sign_session test_runtime "ada" "key" default_ttl_ms 1000 3))
      "key"
      43201000
    ≡ some (record { user_id = "ada"; session_version = 3 })
verify_session_payload-sign_session_example =
    verify_session_payload-sign_session test_runtime "ada" "key" default_ttl_ms 1000 3 43201000
      ada-IsFaithful refl

-- A token without a dot, and payloads of the older form with a version and with none.
without_dot : verify_session_payload test_runtime (some "a,key-a,") "key" 8 ≡ none
unfolding verify_session_payload split_dot
without_dot = refl

older_payload :
    legacy_payload test_runtime ("a" ∷ "b" ∷ "7" ∷ "90" ∷ [])
    ≡ some (record { user_id = "a.b"; session_version = natural 7; expiry = natural 90 })
unfolding legacy_payload join_dot
older_payload = refl

oldest_payload :
    legacy_payload test_runtime ("a" ∷ "b" ∷ "90" ∷ [])
    ≡ some (record { user_id = "a.b"; session_version = natural 0; expiry = natural 90 })
unfolding legacy_payload join_dot
oldest_payload = refl

accepted :
    verify_session_payload test_runtime (some "_{ada.key_{ada") "key" 5
    ≡ some (record { user_id = "ada"; session_version = 3 })
unfolding verify_session_payload parse_payload split_dot strip_prefix
accepted = refl

verify_session_payload-IsSigned_example :
    IsSigned test_runtime "_{ada.key_{ada" "key" 5 (record { user_id = "ada"; session_version = 3 })
verify_session_payload-IsSigned_example =
    verify_session_payload-IsSigned test_runtime "_{ada.key_{ada" "key" 5
      (record { user_id = "ada"; session_version = 3 }) accepted
