-- ===== src/Client.antt =====
-- Who a request is from, packages/proxy/src/http/client-identity.ts. The runtime's SHA-256, in
-- hexadecimal, is an argument.
use molenkopf.Base.{
  ℕ, String, Bool, false, ◌&&◌, ◌||◌, not, Option, none, some, List, leb, nat_eq, if◌then◌else◌,
  ◌>>=◌, Dict, lookup, is_empty, is_space, trim, is_digit,
}
use Prim.Native.Char.{code}
use Prim.Native.String
use molenkopf.Base.{keep_chars, first_chars, is_word, some_char, to_lower, lookup}
use molenkopf.Identity.{Allowlist}

pub data Source : Type 0 where
  user agent api_key unattributed : Source

pub record ClientIdentity : Type 0 where
  pub id : String
  pub label : String
  pub source : Source
  pub user_id : Option String
  pub agent_id : Option String
  pub key_agent_label : Option String
  pub team_ids : Option (List String)
  pub key_id : Option String
  pub project : Option String
  pub allowed_provider_ids : Option Allowlist

-- Request headers by their lower-case names.
abbrev pub Headers : Type 0
Headers = Dict String

abbrev is_agent_char : ℕ → Bool
is_agent_char c = is_word c || nat_eq c b' ' || nat_eq c b'.' || nat_eq c b'@' || nat_eq c b'-'

abbrev or_unset : String → Option String
or_unset s = if is_empty s then none else some s

clean : Option String → Option String
clean none = none
clean (some value) = or_unset (first_chars 48 (trim (keep_chars is_agent_char value)))

unfoldable pub agent_id_from_headers : Headers → Option String
unfolding clean keep_chars first_chars trim
agent_id_from_headers headers = clean (lookup "x-molenkopf-agent" headers)

abbrev is_sensitive_char : ℕ → Bool
is_sensitive_char c = nat_eq c b'@' || is_space c

abbrev is_slug_char : ℕ → Bool
is_slug_char c =
    (leb b'a' c && leb c b'z') || is_digit c || nat_eq c b'.' || nat_eq c b'_' || nat_eq c b'-'

abbrev is_dash_start : String → Bool
is_dash_start String.[] = false
is_dash_start (String.◌∷◌ c s) = nat_eq (code c) b'-'

-- Each run of other characters becomes one dash; the flag says that a run is under way.
dash_runs : Bool → String → String
dash_runs in_run String.[] = ""
dash_runs in_run (String.◌∷◌ c s) =
    let kept = dash_runs (not (is_slug_char (code c))) s in
    if is_slug_char (code c)
    then String.◌∷◌ c kept
    else if in_run
    then kept
    else String.◌++◌ "-" kept

abbrev without_first_dash : String → String
without_first_dash String.[] = ""
without_first_dash (String.◌∷◌ c s) = if nat_eq (code c) b'-' then s else String.◌∷◌ c s

without_last_dash : String → String
without_last_dash String.[] = ""
without_last_dash (String.◌∷◌ c s) =
    let rest = without_last_dash s in
    if nat_eq (code c) b'-' && is_empty s then "" else String.◌∷◌ c rest

slug : String → String
unfolding dash_runs without_last_dash first_chars to_lower
slug value =
    let dashed = without_last_dash (without_first_dash (dash_runs false (to_lower value))) in
    let short = first_chars 48 dashed in if is_empty short then "unknown" else short

module _ (sha256 : String → String) where
  unfoldable pub safe_subject_id : String → String
  unfolding slug first_chars
  safe_subject_id value =
      if some_char is_sensitive_char value then first_chars 12 (sha256 value) else slug value

  unfoldable pub client_id_for_agent : String → String
  unfolding safe_subject_id
  client_id_for_agent agent_id = String.◌++◌ "agent:" (safe_subject_id agent_id)

  -- `a || b` of two headers
  abbrev credential : Headers → Option String
  credential headers = elim (lookup "authorization" headers >>= or_unset) [
    | none ↦ lookup "x-api-key" headers >>= or_unset
    | some value ↦ some value
  ]

  abbrev anonymous : ClientIdentity
  anonymous = record {
    id = "unattributed";
    label = "unattributed client";
    source = unattributed;
    user_id = none;
    agent_id = none;
    key_agent_label = none;
    team_ids = none;
    key_id = none;
    project = none;
    allowed_provider_ids = none;
  }

  unfoldable pub derive_client_identity : Headers → ClientIdentity
  unfolding agent_id_from_headers client_id_for_agent safe_subject_id first_chars
  derive_client_identity headers = elim (agent_id_from_headers headers) [
    | some name ↦ record anonymous {
      id = client_id_for_agent name;
      label = String.◌++◌ "agent:" (safe_subject_id name);
      source = agent;
      agent_id = some name;
    }
    | none ↦ elim (credential headers) [
      | some value ↦ record anonymous {
        id = String.◌++◌ "api-key:" (first_chars 12 (sha256 value));
        label = String.◌++◌ "api-key sha256:" (first_chars 12 (sha256 value));
        source = api_key;
      }
      | none ↦ anonymous
    ]
  ]

unfoldable pub client_id_for_user : String → String
client_id_for_user user_id = String.◌++◌ "user:" user_id
