-- ===== src/Sessions.antt =====
-- Signed session tokens, packages/core/src/auth/session.ts. HMAC-SHA-256, base64url, JSON and the
-- conversion `Number` are arguments.
pub mod Parts
pub mod Laws
pub mod Tests
use molenkopf.Base.{
  ℕ, zero, suc, ◌+◌, ◌-◌, ◌*◌, ◌/◌, ◌≤◌, ◌<◌, String, ◌≡◌, refl, sym, ap, ◌∙◌, ◌≢◌, ◌↔◌, ◌⊎◌, inl,
  inr, Bool, true, false, ◌&&◌, ◌||◌, not, Option, none, some, List, [], ◌∷◌, ◌++◌, map, arith,
  ◌==◌, eq_iff, eq_refl, ltb, leb, nat_eq, if◌then◌else◌, Bool-cases, Option-cases, or_else,
  or_option, is_some, ◌>>=◌, Result, ok, fail, length, take, drop, filter, find, any, all, All,
  length-append, includes, includes-filter, includes-append, other_than, unique, includes-unique,
  IsUnique, filter-IsUnique, unique-IsUnique, all_mono, all-filter, all-of_includes,
  all-filter_self, all-const, filter-all, Dict, lookup, insert, erase, values, lookup-insert,
  lookup-erase, has, has-erase, all_rows, erase_all, map_values, is_empty, is_space, trim, size,
  every_char, is_digit, is_letter, is_id_char, is_slug,
}
use Prim.Native.String
use molenkopf.Base.{strip_prefix}
use molenkopf.Sessions.Parts.{split_dot, join_dot}
use molenkopf.Scope.{SessionPayload}

-- What `Number` gives: a natural number, or something else, with whether it is finite.
pub data Number : Type 0 where
  natural : ℕ → Number
  fraction : ℕ → Number
  negative : Number
  not_finite : Number

-- The fields of a JSON object: `u` where it is a text, and `Number` of `v` and `e`.
pub record Fields : Type 0 where
  pub u : Option String
  pub v : Number
  pub e : Number

pub record SessionRuntime : Type 0 where
  pub hmac_sha256 : String → String → String
  pub to_base64url : String → String
  pub from_base64url : String → String
  pub to_json : String → ℕ → ℕ → String
  pub parse_json : String → Option Fields
  pub to_number : String → Number

pub record Parsed : Type 0 where
  pub user_id : String
  pub session_version : Number
  pub expiry : Number

abbrev pub default_ttl_ms : ℕ
default_ttl_ms = 43200000

abbrev pub max_safe_integer : ℕ
max_safe_integer = 9007199254740991

abbrev pub is_version : Number → Bool
is_version (natural n) = leb n max_safe_integer
is_version (fraction n) = false
is_version negative = false
is_version not_finite = false

-- `Number.isFinite(expiry) && expiry >= now`; `fraction n` is between `n` and `n + 1`.
abbrev pub is_live : ℕ → Number → Bool
is_live now (natural n) = leb now n
is_live now (fraction n) = leb now n
is_live now negative = false
is_live now not_finite = false

abbrev pub version_of : Number → ℕ
version_of (natural n) = n
version_of (fraction n) = 0
version_of negative = 0
version_of not_finite = 0

-- The `n`-th part from the end.
abbrev pub part_at : ℕ → List String → String
part_at n [] = ""
part_at n (p ∷ ps) = if leb n (length ps) then part_at n ps else p

abbrev pub without_last : ℕ → List String → List String
without_last n ps = take (length ps - n) ps

abbrev pub live_session : ℕ → Option Parsed → Option SessionPayload
live_session now none = none
live_session now (some p) =
    if not (is_version p.session_version)
    then none
    else if not (is_live now p.expiry)
    then none
    else some (record { user_id = p.user_id; session_version = version_of p.session_version })

module _ (rt : SessionRuntime) where
  abbrev pub hmac : String → String → String
  hmac body secret = rt.hmac_sha256 body secret

  unfoldable pub sign_session : String → String → ℕ → ℕ → ℕ → String
  sign_session user_id secret ttl_ms now session_version =
      let body = rt.to_base64url (rt.to_json user_id session_version (now + ttl_ms)) in
      String.◌++◌ body (String.◌++◌ "." (hmac body secret))

  -- A token of the older form: the user's id, the version where there is one, and the expiry.
  unfoldable pub legacy_payload : List String → Option Parsed
  unfolding join_dot
  legacy_payload parts =
      if ltb (length parts) 2
      then none
      else if leb 3 (length parts) && is_version (rt.to_number (part_at 2 parts))
      then some (record {
        user_id = join_dot (without_last 2 parts);
        session_version = rt.to_number (part_at 2 parts);
        expiry = rt.to_number (part_at 1 parts);
      })
      else some (record {
        user_id = join_dot (without_last 1 parts);
        session_version = natural 0;
        expiry = rt.to_number (part_at 1 parts);
      })

  abbrev from_fields : String → Fields → Option Parsed
  from_fields decoded fields = elim fields.u [
    | none ↦ legacy_payload (split_dot decoded)
    | some u ↦ some (record { user_id = u; session_version = fields.v; expiry = fields.e })
  ]

  unfoldable pub parse_payload : String → Option Parsed
  unfolding legacy_payload split_dot strip_prefix
  parse_payload decoded =
      if is_some (strip_prefix "{" decoded)
      then elim (rt.parse_json decoded) [ none ↦ none | some fields ↦ from_fields decoded fields ]
      else legacy_payload (split_dot decoded)

  abbrev pub verified : String → ℕ → String → String → Option SessionPayload
  verified secret now body sig =
      if is_empty body || is_empty sig || not (sig == hmac body secret)
      then none
      else live_session now (parse_payload (rt.from_base64url body))

  abbrev pub of_parts : String → ℕ → List String → Option SessionPayload
  of_parts secret now [] = none
  of_parts secret now (body ∷ []) = none
  of_parts secret now (body ∷ sig ∷ []) = verified secret now body sig
  of_parts secret now (body ∷ sig ∷ p ∷ ps) = none

  unfoldable pub verify_session_payload : Option String → String → ℕ → Option SessionPayload
  verify_session_payload none secret now = none
  verify_session_payload (some token) secret now = of_parts secret now (split_dot token)

  unfoldable pub verify_session : Option String → String → ℕ → Option String
  verify_session token secret now = elim (verify_session_payload token secret now) [
    | none ↦ none
    | some p ↦ some p.user_id
  ]
