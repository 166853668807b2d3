-- ===== src/Drafts/Tests.antt =====
-- The theorem on the drafts at a first draft.
use molenkopf.Base.{String, ◌≡◌, refl, none, some, [], ◌∷◌, length, Dict}
use molenkopf.Runtime.{ProviderConfig, UsageTotals, api}
use molenkopf.Usage.{no_usage}
use molenkopf.Drafts.{Input, text_value, upsert_agent_draft, raw_credential_field}
use molenkopf.Drafts.Laws.{IsDrafts}
use molenkopf.Drafts.Bounds.{upsert_agent_draft-IsDrafts}

abbrev a_provider : ProviderConfig
a_provider = record {
  id = "openai";
  name = "OpenAI";
  kind = api;
  target = "https://api.example.com";
  credential_env = none;
  credential_ref = none;
  credential_value = none;
  auth_scheme = none;
  runtime_auth_dir = none;
  allow_distribution = none;
  allow_client_credential_forwarding = none;
  enabled = none;
}

abbrev an_input : Dict Input
an_input =
    ("id", text_value "bot")
    ∷ ("tokenHash", text_value "0123456789abcdef0123456789abcdef0123456789abcdef0123456789ABCDEF")
    ∷ []

abbrev some_usage : String → UsageTotals
some_usage id = no_usage

upsert_agent_draft_example :
    IsDrafts (upsert_agent_draft [] [] (a_provider ∷ []) "openai" "t1" some_usage an_input []).1
upsert_agent_draft_example =
    upsert_agent_draft-IsDrafts [] [] (a_provider ∷ []) "openai" "t1" some_usage an_input []
      (record { few = refl; once = tt; hashed = refl })

one-stored :
    length (upsert_agent_draft [] [] (a_provider ∷ []) "openai" "t1" some_usage an_input []).1 ≡ 1
unfolding upsert_agent_draft
one-stored = refl

-- A token itself is refused.
raw_token :
    raw_credential_field (("id", text_value "bot") ∷ ("apiKey", text_value "x") ∷ [])
    ≡ some "apiKey"
unfolding raw_credential_field
raw_token = refl
