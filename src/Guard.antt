-- ===== src/Guard.antt =====
-- Which writes reach the control plane, packages/proxy/src/http/control-plane-guard.ts and
-- public-bind.ts. The runtime's parser of URLs is an argument, `none` where it throws, and so is the
-- address of the dashboard in development; each header has at most one value.
mod Texts
pub mod Laws
pub mod Tests
use molenkopf.Base.{
  ℕ, zero, suc, ◌+◌, ◌-◌, ◌*◌, ◌/◌, ◌≤◌, ◌<◌, String, ◌≡◌, refl, sym, ap, ◌∙◌, ◌≢◌, ◌↔◌, ◌⊎◌, inl,
  inr, Bool, true, false, ◌&&◌, ◌||◌, not, Option, none, some, List, [], ◌∷◌, ◌++◌, map, arith,
  ◌==◌, eq_iff, eq_refl, ltb, leb, nat_eq, if◌then◌else◌, Bool-cases, Option-cases, or_else,
  or_option, is_some, ◌>>=◌, Result, ok, fail, length, take, drop, filter, find, any, all, All,
  length-append, includes, includes-filter, includes-append, other_than, unique, includes-unique,
  IsUnique, filter-IsUnique, unique-IsUnique, all_mono, all-filter, all-of_includes,
  all-filter_self, all-const, filter-all, Dict, lookup, insert, erase, values, lookup-insert,
  lookup-erase, has, has-erase, all_rows, erase_all, map_values, is_empty, is_space, trim, size,
  every_char, is_digit, is_letter, is_id_char, is_slug,
}
use Prim.Native.Char.{code}
use Prim.Native.String
use molenkopf.Base.{strip_prefix, to_lower}

pub record Url : Type 0 where
  pub protocol : String
  pub host : String
  pub hostname : String
  pub port : String

pub record Request : Type 0 where
  pub method : Option String
  pub origin : Option String
  pub host : Option String
  pub cookie : Option String
  pub content_type : Option String

-- With the status 403 or 415.
pub data GuardResult : Type 0 where
  passed bad_origin json_required : GuardResult

abbrev pub write_methods : List String
write_methods = "POST" ∷ "PUT" ∷ "PATCH" ∷ "DELETE" ∷ []

-- `/^127(?:\.|$)/`
abbrev is_127 : String → Bool
is_127 value = value == "127" || is_some (strip_prefix "127." value)

unfoldable pub is_loopback_bind_host : String → Bool
unfolding to_lower strip_prefix
is_loopback_bind_host host =
    let value = to_lower host in
    value == "localhost" || value == "::1" || value == "[::1]" || is_127 value

unfoldable pub require_public_bind_flag : String → Option Bool → Bool
unfolding is_loopback_bind_host
require_public_bind_flag host allow_public_bind =
    is_loopback_bind_host host || or_else allow_public_bind false

-- The name of the session's cookie stands here, after spaces if `spaced`.
session_here : Bool → String → Bool
unfolding strip_prefix
session_here spaced String.[] = false
session_here spaced (String.◌∷◌ c s) =
    let later = session_here spaced s in
    is_some (strip_prefix "molenkopf_session=" (String.◌∷◌ c s))
    || (spaced && is_space (code c) && later)

session_after : String → Bool
unfolding session_here
session_after String.[] = false
session_after (String.◌∷◌ c s) = (nat_eq (code c) b';' && session_here true s) || session_after s

-- `/(?:^|;\s*)molenkopf_session=/`
unfoldable pub has_session_cookie : Option String → Bool
unfolding session_here session_after
has_session_cookie none = false
has_session_cookie (some value) = session_here false value || session_after value

before_semicolon : String → String
before_semicolon String.[] = ""
before_semicolon (String.◌∷◌ c s) =
    if nat_eq (code c) b';' then "" else String.◌∷◌ c (before_semicolon s)

ends_with : String → String → Bool
ends_with end String.[] = is_empty end
ends_with end (String.◌∷◌ c s) = String.◌∷◌ c s == end || ends_with end s

unfoldable pub is_json_content_type : Option String → Bool
unfolding before_semicolon ends_with trim to_lower
is_json_content_type none = false
is_json_content_type (some value) =
    let media_type = to_lower (trim (before_semicolon value)) in
    not (is_empty value) && (media_type == "application/json" || ends_with "+json" media_type)

abbrev is_loopback_name : String → Bool
is_loopback_name hostname =
    let value = to_lower hostname in
    value == "localhost" || value == "127.0.0.1" || value == "[::1]"

unfoldable pub same_origin_host : Url → Url → Bool
unfolding to_lower
same_origin_host actual expected =
    to_lower actual.host == to_lower expected.host
    || (actual.port == expected.port
        && is_loopback_name actual.hostname
        && is_loopback_name expected.hostname)

-- `if (s)`
abbrev pub present : Option String → Option String
present none = none
present (some s) = if is_empty s then none else some s

module _ (parse_url : String → Option Url) (dashboard_dev_origin : Option String) where
  abbrev dev_allowed : Url → Option String → Bool
  dev_allowed parsed none = false
  dev_allowed parsed (some dev) = elim (parse_url dev) [
    | none ↦ false
    | some allowed ↦ parsed.protocol == allowed.protocol && same_origin_host parsed allowed
  ]

  abbrev is_web : Url → Bool
  is_web u = u.protocol == "http:" || u.protocol == "https:"

  abbrev parsed_allowed : String → Option Url → Bool
  parsed_allowed host none = false
  parsed_allowed host (some parsed) =
      is_web parsed
      && (to_lower parsed.host == to_lower host
          || dev_allowed parsed (present dashboard_dev_origin))

  abbrev from_origin : String → Option String → Bool
  from_origin origin none = false
  from_origin origin (some host) = parsed_allowed host (parse_url origin)

  unfoldable pub origin_allowed : Option String → Option String → Bool
  unfolding to_lower same_origin_host
  origin_allowed origin host = elim (present origin) [
    | none ↦ true
    | some o ↦ from_origin o (present host)
  ]

  unfoldable pub check_control_plane_write : Request → String → GuardResult
  unfolding origin_allowed has_session_cookie is_json_content_type is_loopback_bind_host
  check_control_plane_write req bind_host =
      if not (includes write_methods (or_else req.method "GET"))
      then passed
      else if not (origin_allowed req.origin req.host)
      then bad_origin
      else if not (is_some (present req.origin))
          && not (is_loopback_bind_host bind_host)
          && has_session_cookie req.cookie
      then bad_origin
      else if not (is_json_content_type req.content_type)
      then json_required
      else passed
