-- ===== src/Forwarding/Tests.antt =====
-- The theorems on the headers at a provider with its own credential.
use molenkopf.Base.{
  inl, inr, String, ◌≡◌, refl, Option, none, some, [], ◌∷◌, ◌==◌, if◌then◌else◌, lookup,
}
use molenkopf.Client.{Headers}
use molenkopf.Runtime.{ProviderConfig, api}
use molenkopf.Forwarding.{build_forward_headers}
use molenkopf.Forwarding.Laws.{IsKeptFrom, build_forward_headers-keeps_back}

abbrev own_provider : ProviderConfig
own_provider = record {
  id = "openai";
  name = "OpenAI";
  kind = api;
  target = "https://example.invalid";
  credential_env = some "OPENAI_KEY";
  credential_ref = none;
  credential_value = none;
  auth_scheme = none;
  runtime_auth_dir = none;
  allow_distribution = none;
  allow_client_credential_forwarding = none;
  enabled = none;
}

abbrev test_env : String → Option String
test_env name = if name == "OPENAI_KEY" then some "sk-own" else none

abbrev client_headers : Headers
client_headers = ("authorization", "Bearer sk-client") ∷ ("x-trace", "7") ∷ ("host", "h") ∷ []

own_credential_test :
    build_forward_headers test_env own_provider client_headers
    ≡ ("x-trace", "7") ∷ ("authorization", "Bearer sk-own") ∷ []
unfolding build_forward_headers
own_credential_test = refl

own_provider-kept : IsKeptFrom own_provider
own_provider-kept = inl (inr (inl ("OPENAI_KEY", refl, refl)))

keeps_back_example :
    lookup "authorization" (build_forward_headers test_env own_provider client_headers)
    ≡ lookup "authorization" (build_forward_headers test_env own_provider [])
keeps_back_example =
    build_forward_headers-keeps_back test_env own_provider "authorization" client_headers []
      own_provider-kept (inl refl)
