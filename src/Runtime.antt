-- ===== src/Runtime.antt =====
-- The state of the proxy that its routing and accounting read and write,
-- packages/proxy/src/http/runtime-types.ts, with a provider as it is configured,
-- packages/core/src/providers/provider-catalog.ts, and what is kept of a request,
-- packages/core/src/manifest/audit-store.ts. A record that the source creates on first use is empty
-- before. Token counts are whole numbers, which the meter sees to, and weights are scaled to whole
-- numbers; times are milliseconds since 1970.
use molenkopf.Base.{ℕ, String, Bool, Option, List, Dict}
use molenkopf.Identity.{IdentityData}
use molenkopf.Client.{Source}

pub data ProviderKind : Type 0 where
  api on_host cli : ProviderKind

pub data AuthScheme : Type 0 where
  bearer x_api_key no_auth : AuthScheme

pub record ProviderConfig : Type 0 where
  pub id : String
  pub name : String
  pub kind : ProviderKind
  pub target : String
  pub credential_env : Option String
  pub credential_ref : Option String
  pub credential_value : Option String
  pub auth_scheme : Option AuthScheme
  pub runtime_auth_dir : Option String
  pub allow_distribution : Option Bool
  pub allow_client_credential_forwarding : Option Bool
  pub enabled : Option Bool

-- Requests, tokens and micro-euros.
pub record Counts : Type 0 where
  pub requests : ℕ
  pub input_tokens : ℕ
  pub output_tokens : ℕ
  pub cost_eur : ℕ

pub record ModelUsage : Type 0 where
  pub counts : Counts
  pub reasoning : Dict Counts

pub record PeriodUsage : Type 0 where
  pub counts : Counts
  pub models : Dict ModelUsage

pub record UsageTotals : Type 0 where
  pub overall : PeriodUsage
  pub periods : Dict PeriodUsage

pub data RoutingMode : Type 0 where
  manual distribute : RoutingMode

pub record ResolvedAgent : Type 0 where
  pub id : String
  pub provider_id : String
  pub enabled : Option Bool
  pub allowed_models : Option (List String)
  pub default_model : Option String
  pub enabled_plugin_ids : Option (List String)

pub record AgentDraft : Type 0 where
  pub id : String
  pub label : String
  pub provider_id : String
  pub enabled_plugin_ids : List String
  pub token_hash : Option String
  pub disabled : Option Bool
  pub token_limit : Option ℕ

-- The client of an audit manifest.
pub record AuditClient : Type 0 where
  pub id : String
  pub source : Source
  pub user_id : Option String
  pub agent_id : Option String
  pub team_ids : Option (List String)
  pub key_id : Option String

pub record AuditManifest : Type 0 where
  pub request_id : String
  pub timestamp : ℕ
  pub provider_id : Option String
  pub requested_model : Option String
  pub requested_reasoning : Option String
  pub client : Option AuditClient
  pub upstream_input_tokens : Option ℕ
  pub upstream_output_tokens : Option ℕ

pub record RuntimeState : Type 0 where
  pub host : String
  pub providers : List ProviderConfig
  pub active_provider_id : String
  pub provider_selected_at : ℕ
  pub routing_mode : RoutingMode
  pub provider_weights : Dict ℕ
  pub usage_by_provider : Dict UsageTotals
  pub usage_by_user : Dict UsageTotals
  pub usage_by_agent : Dict UsageTotals
  pub usage_by_key : Dict UsageTotals
  pub usage_by_team : Dict UsageTotals
  pub usage_snapshot_cursor : Option (ℕ × String)
  pub consumer_budgets : Dict ℕ
  pub config_agents : List ResolvedAgent
  pub agent_drafts : List AgentDraft
  pub identity : Option IdentityData
