-- ===== src/Sessions/Laws.antt =====
-- What a token that was signed gives back, and which tokens are accepted.
use molenkopf.Base.{
  ℕ, ◌+◌, String, ◌≡◌, refl, sym, ap, ◌∙◌, inl, inr, true, false, none, some, List, [], ◌∷◌, arith,
  ◌==◌, eq_iff, eq_refl, leb, if◌then◌else◌, Bool-cases, Option-cases, is_some, is_empty,
}
use Prim.Native.String
use molenkopf.Base.{strip_prefix}
use molenkopf.Sessions.Parts.{split_dot, join_dot, no_dot, split_dot-append, join_dot-split_dot}
use molenkopf.Scope.{SessionPayload}
use molenkopf.Sessions.{
  Number, natural, fraction, negative, not_finite, SessionRuntime, Parsed, max_safe_integer,
  is_version, is_live, version_of, live_session, verified, of_parts, hmac, sign_session,
  parse_payload, verify_session_payload,
}

abbrev pub body_of : SessionRuntime → String → ℕ → ℕ → String
body_of rt user_id version expiry = rt.to_base64url (rt.to_json user_id version expiry)

-- What the program relies on for one body: the two texts of a token have characters and no dot, and
-- the body decodes to the JSON text, which starts with a brace and has the fields it was made of.
pub record IsFaithful (rt : SessionRuntime) (secret user_id : String) (version expiry : ℕ)
    : Type 0 where
  pub body_plain : no_dot (body_of rt user_id version expiry) ≡ true
  pub body_filled : is_empty (body_of rt user_id version expiry) ≡ false
  pub digest_plain : no_dot (rt.hmac_sha256 (body_of rt user_id version expiry) secret) ≡ true
  pub digest_filled : is_empty (rt.hmac_sha256 (body_of rt user_id version expiry) secret) ≡ false
  pub decoded :
      rt.from_base64url (body_of rt user_id version expiry) ≡ rt.to_json user_id version expiry
  pub braced : is_some (strip_prefix "{" (rt.to_json user_id version expiry)) ≡ true
  pub parsed :
      rt.parse_json (rt.to_json user_id version expiry)
      ≡ some (record { u = some user_id; v = natural version; e = natural expiry })

parse_payload-to_json :
    (rt : SessionRuntime) (secret user_id : String) (version expiry : ℕ)
    → IsFaithful rt secret user_id version expiry
    → parse_payload rt (rt.to_json user_id version expiry)
      ≡ some
          (record { user_id = user_id; session_version = natural version; expiry = natural expiry })
unfolding parse_payload
parse_payload-to_json rt secret user_id version expiry h = rw (h.braced, h.parsed)

live_session-natural :
    (user_id : String) (now expiry version : ℕ)
    → leb version max_safe_integer ≡ true
    → live_session now (
        some (record {
          user_id = user_id;
          session_version = natural version;
          expiry = natural expiry;
        }))
      ≡ (if leb now expiry
          then some (record { user_id = user_id; session_version = version })
          else none)
live_session-natural user_id now expiry version safe = rw (safe) (ground (arith))

-- Where the body of the token decodes to the JSON text it was made of, and neither it nor its HMAC is
-- empty or has a dot, a token that was signed is accepted with the same secret up to its expiry, and
-- gives the user and the session version, a safe integer, it was signed for; after its expiry it is
-- refused.
pub verify_session_payload-sign_session :
    (rt : SessionRuntime) (user_id secret : String) (ttl_ms now version later : ℕ)
    → IsFaithful rt secret user_id version (now + ttl_ms)
    → leb version max_safe_integer ≡ true
    → verify_session_payload rt
        (some (sign_session rt user_id secret ttl_ms now version))
        secret
        later
      ≡ (if leb later (now + ttl_ms)
          then some (record { user_id = user_id; session_version = version })
          else none)
unfolding verify_session_payload sign_session
verify_session_payload-sign_session rt user_id secret ttl_ms now version later h safe =
    rw
      (
        split_dot-append (body_of rt user_id version (now + ttl_ms))
            (hmac rt (body_of rt user_id version (now + ttl_ms)) secret) h.body_plain
            h.digest_plain,
        h.body_filled,
        h.digest_filled,
        eq_refl (hmac rt (body_of rt user_id version (now + ttl_ms)) secret),
        h.decoded,
        parse_payload-to_json rt secret user_id version (now + ttl_ms) h,
      )
      (live_session-natural user_id later (now + ttl_ms) version safe)

-- What an accepted token is: a body with its HMAC, whose payload is not expired and carries the
-- user's id and a session version.
pub record IsSigned (rt : SessionRuntime) (token secret : String) (now : ℕ) (p : SessionPayload)
    : Type 0 where
  pub body : String
  pub payload : Parsed
  pub signed : token ≡ String.◌++◌ body (String.◌++◌ "." (hmac rt body secret))
  pub parsed : parse_payload rt (rt.from_base64url body) ≡ some payload
  pub live : is_live now payload.expiry ≡ true
  pub named : payload.user_id ≡ p.user_id
  pub versioned : payload.session_version ≡ natural p.session_version

is_version-natural : (v : Number) → is_version v ≡ true → v ≡ natural (version_of v)
is_version-natural (natural n) h = refl
is_version-natural (fraction n) h = ground (arith)
is_version-natural negative h = ground (arith)
is_version-natural not_finite h = ground (arith)

live_session-live :
    (now : ℕ) (q : Parsed) (p : SessionPayload)
    → live_session now (some q) ≡ some p
    → (is_live now q.expiry ≡ true)
      × ((q.user_id ≡ p.user_id) × (q.session_version ≡ natural p.session_version))
live_session-live now q p h = ground (arith, is_version-natural q.session_version)

verified-IsSigned :
    (rt : SessionRuntime) (token secret body sig : String) (now : ℕ) (p : SessionPayload)
    → token ≡ join_dot (body ∷ sig ∷ [])
    → verified rt secret now body sig ≡ some p
    → IsSigned rt token secret now p
unfolding join_dot
verified-IsSigned rt token secret body sig now p joined h =
    elim (Bool-cases (sig == hmac rt body secret)) [
      | inl e ↦ elim (Option-cases (parse_payload rt (rt.from_base64url body))) [
        | inl n ↦ absurd (ground (arith))
        | inr (q, n) ↦
            let here : live_session now (some q) ≡ some p = ground (arith) in
            let (live, (named, versioned)) = live_session-live now q p here in
            record {
              body = body;
              payload = q;
              signed =
                  joined
                  ∙ ap (λ d. join_dot (body ∷ d ∷ [])) ((eq_iff sig (hmac rt body secret)).0 e);
              parsed = n;
              live = live;
              named = named;
              versioned = versioned;
            }
      ]
      | inr e ↦ absurd (ground (arith))
    ]

of_parts-IsSigned :
    (rt : SessionRuntime) (token secret : String) (now : ℕ) (p : SessionPayload)
    (parts : List String)
    → token ≡ join_dot parts
    → of_parts rt secret now parts ≡ some p
    → IsSigned rt token secret now p
of_parts-IsSigned rt token secret now p [] joined h = absurd (ground (arith))
of_parts-IsSigned rt token secret now p (body ∷ []) joined h = absurd (ground (arith))
of_parts-IsSigned rt token secret now p (body ∷ sig ∷ []) joined h =
    verified-IsSigned rt token secret body sig now p joined h
of_parts-IsSigned rt token secret now p (body ∷ sig ∷ q ∷ qs) joined h = absurd (ground (arith))

-- Every token that is accepted is a body followed by a dot and the HMAC of the body under the secret;
-- the body's payload is not expired and carries the user's id and the version that the answer has.
pub verify_session_payload-IsSigned :
    (rt : SessionRuntime) (token secret : String) (now : ℕ) (p : SessionPayload)
    → verify_session_payload rt (some token) secret now ≡ some p
    → IsSigned rt token secret now p
unfolding verify_session_payload
verify_session_payload-IsSigned rt token secret now p h =
    of_parts-IsSigned rt token secret now p (split_dot token) (sym (join_dot-split_dot token)) h
