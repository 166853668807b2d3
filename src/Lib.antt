-- ===== src/Lib.antt =====
-- Molenkopf, a proxy between coding agents and the providers of language models. A request presents
-- an API key; the key gives the user, the teams and the agent that it counts for; budgets may refuse
-- it; routing picks a provider that the client may use; and what it consumed is counted.
--
-- The parts and their files (paths from the repository's root; `core` is packages/core/src and `http`
-- is packages/proxy/src/http):
--   Base        names, tests, lists, association lists and texts that the parts share
--   Identity    core/identity: users, teams and keys (types.ts), the teams of a request
--               (team-scope.ts), key permissions, prices, validation, API keys (api-keys.ts), and the
--               store with its updates and their roll-back (identity-store.ts)
--   Client      http/client-identity.ts: the client that headers give
--   Runtime     http/runtime-types.ts with the providers and the audit manifest: the state
--   Usage       http/usage-accounting.ts and the period keys of core/identity/budget.ts
--   Budget      http/budget-gate.ts and http/budget-warnings.ts
--   Routing     http/agent-router.ts, with http/provider-access.ts (Access),
--               core/routing/distribution.ts (Distribution), http/runtime-state.ts and
--               http/provider-routing-snapshot.ts (Providers), http/proxy-identity.ts (Clients)
--   Forwarding  http/header-utils.ts: the headers that a provider gets
--   Proofs      http/runtime-auth-proof.ts: proofs that an import was previewed
--   Profiles    core/profiles/profile-router.ts
--   Events      core/events/event-bus.ts
--   Plugins     core/plugins/plugin-policy-types.ts and plugin-policy-resolve.ts, with
--               http/runtime-plugin-policy.ts: the policies of plugins, without their settings
--   Scope       http/auth-state.ts and http/local-api-scope.ts: who reads what
--   Guard       http/control-plane-guard.ts and http/public-bind.ts: writes to the control plane
--   RequestPolicy  http/request-policy.ts: the models that an agent may ask for
--   Timing      core/observability/request-timing.ts
--   Sessions    core/auth/session.ts: signed session tokens
--   Snapshots   core/identity/usage-snapshot.ts: the rows of a snapshot (Snapshots) and when it is
--               written (Flush); http/usage-restore.ts is Usage/Restore
--   Memory      core/memory/memory-graph.ts
--   Drafts      http/agent-drafts.ts: the drafts of agents
--   Audit       core/manifest/audit-store.ts: retention, and pages with their cursors (Pages)
--   Config      core/config/config-policies.ts: profiles, plugin policies and agents
--
-- Functions keep the names of the source in snake case, and records those of its types. `undefined`
-- is `none`, a thrown error or an error answer is a constructor, and a function that changes an object
-- gives the new one back; the objects that are changed are not shared in a way that a result depends
-- on, but for the counters, which Snapshots/Flush keeps by reference. A JavaScript record is an association list in the order of insertion, without a key twice.
--
-- Numbers are natural numbers: tokens and weights are whole (a weight can be scaled), euro amounts are
-- whole micro-euros, to which the source rounds each cost, and times are milliseconds since 1970.
-- Where the source divides in floating point the model is exact. Texts are lists of code points.
-- SHA-256, HMAC, base64url, random ids and secrets, the clock, the order of texts by the locale, the
-- parsers of URLs and of JSON, and whether SQLite carries a transaction out are arguments. Loops are
-- recursion on lists; the decimal digits of a number are cut at twenty, more than a time or a year has.
--
-- Queues of microtasks are lists of jobs that run one after the other; an event of a run is one job or
-- one call from outside, and SQLite answers each save. A loop that follows cursors has fuel, which is
-- enough once it exceeds the number of files.
--
-- Not modelled are the network, the files and SQLite, the dashboard, the command line, the host
-- and the settings of plugins with their pages, the compression of requests, and the checks that make
-- a JSON text a manifest or a snapshot, which are arguments. The state of the proxy has the fields that
-- the parts above read and write.
pub mod Base
pub mod Identity
pub mod Client
pub mod Runtime
pub mod Usage
pub mod Budget
pub mod Routing
pub mod Forwarding
pub mod Proofs
pub mod Profiles
pub mod Events
pub mod Plugins
pub mod Scope
pub mod Guard
pub mod RequestPolicy
pub mod Timing
pub mod Sessions
pub mod Snapshots
pub mod Memory
pub mod Config
pub mod Audit
pub mod Drafts
