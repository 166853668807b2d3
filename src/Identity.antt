-- ===== src/Identity.antt =====
-- The identity model, packages/core/src/identity/types.ts. A member that the source marks with `?`
-- is an `Option`, `undefined` being `none`. Times are milliseconds, and euro amounts are whole
-- micro-euros: `costEur` rounds each cost to them.
pub mod TeamScope
pub mod Permissions
pub mod Pricing
pub mod Validation
pub mod ApiKeys
pub mod Store
pub mod Tests
use molenkopf.Base.{ℕ, String, Bool, true, false, Option, none, some, List, [], Dict, is_empty, not}

pub data Role : Type 0 where
  admin manager member : Role

pub data BudgetPeriod : Type 0 where
  day week month total : BudgetPeriod

pub data BudgetAction : Type 0 where
  block warn : BudgetAction

-- A limit on tokens that is no whole number acts as the next one above it.
pub record Budget : Type 0 where
  pub token_limit : Option ℕ
  pub cost_limit_eur : Option ℕ
  pub period : BudgetPeriod
  pub on_exceed : BudgetAction

pub record KeyPermissions : Type 0 where
  pub create : Option Bool
  pub revoke : Option Bool

pub record PasswordHash : Type 0 where
  pub salt : String
  pub hash : String

pub record User : Type 0 where
  pub id : String
  pub display_name : String
  pub role : Role
  pub password : Option PasswordHash
  pub login_disabled : Option Bool
  pub team_ids : List String
  pub key_permissions : Option KeyPermissions
  pub budget : Option Budget
  pub disabled : Option Bool
  pub session_version : Option ℕ
  pub created_at : ℕ
  pub created_by : Option String

-- `"*" | string[]`
pub data Allowlist : Type 0 where
  every : Allowlist
  only : List String → Allowlist

pub record Team : Type 0 where
  pub id : String
  pub name : String
  pub allowed_providers : Allowlist
  pub manager_ids : List String
  pub budget : Option Budget
  pub created_at : ℕ

pub record ApiKey : Type 0 where
  pub id : String
  pub hash : String
  pub prefix : String
  pub owner_user_id : String
  pub team_id : Option String
  pub agent_label : Option String
  pub project : Option String
  pub scopes : Option (List String)
  pub budget : Option Budget
  pub disabled : Option Bool
  pub created_at : ℕ
  pub last_used_at : Option ℕ

-- Micro-euros per million tokens.
pub record ProviderPrice : Type 0 where
  pub in_per_mtok : ℕ
  pub out_per_mtok : ℕ

abbrev pub PriceTable : Type 0
PriceTable = Dict ProviderPrice

pub record IdentityData : Type 0 where
  pub schema_version : ℕ
  pub users : Dict User
  pub teams : Dict Team
  pub keys : Dict ApiKey
  pub org_budget : Option Budget
  pub pricing : Option PriceTable

abbrev pub identity_schema_version : ℕ
identity_schema_version = 1

abbrev pub empty_identity : IdentityData
empty_identity = record {
  schema_version = identity_schema_version;
  users = [];
  teams = [];
  keys = [];
  org_budget = none;
  pricing = none;
}

-- A flag that counts as unset where it is missing, `Boolean(flag)`.
abbrev pub flag : Option Bool → Bool
flag none = false
flag (some b) = b

abbrev pub is_admin : Role → Bool
is_admin admin = true
is_admin _ = false

-- `Boolean(password?.hash)`
abbrev pub password_set : Option PasswordHash → Bool
password_set none = false
password_set (some p) = not (is_empty p.hash)
