-- ===== src/Models.antt =====
-- src/models.rs: the records that the router keeps and passes around. A time is a count of
-- nanoseconds, a priority an integer, and a `BTreeMap` an association list.
pub mod Endpoint
pub mod Int
mod Tests
use kou_router.Prelude.{
  ℕ, String, Bool, true, false, Option, none, some, List, [], ◌∷◌, str_eq, if◌then◌else◌, ◌||◌,
}
use Int.{ℤ}

abbrev pub Time : Type 0
Time = ℕ

pub data ProviderAccountAuthMode : Type 0 where
  api_key_mode oauth_mode : ProviderAccountAuthMode

pub data ProviderAccountRoutingStrategy : Type 0 where
  by_priority by_turns : ProviderAccountRoutingStrategy

unfoldable pub auth_mode_as_str : ProviderAccountAuthMode → String
auth_mode_as_str api_key_mode = "api_key"
auth_mode_as_str oauth_mode = "oauth"

unfoldable pub auth_mode_from_str : String → Option ProviderAccountAuthMode
auth_mode_from_str value =
    if str_eq value "api_key" || str_eq value "apikey"
    then some api_key_mode
    else if str_eq value "oauth"
    then some oauth_mode
    else none

unfoldable pub routing_strategy_as_str : ProviderAccountRoutingStrategy → String
routing_strategy_as_str by_priority = "priority"
routing_strategy_as_str by_turns = "round-robin"

unfoldable pub routing_strategy_from_str : String → Option ProviderAccountRoutingStrategy
routing_strategy_from_str value =
    if str_eq value "priority"
    then some by_priority
    else if str_eq value "round-robin" || str_eq value "round_robin"
    then some by_turns
    else none

pub record ProviderConnection : Type 0 where
  pub id : String
  pub provider : String
  pub base_url : String
  pub api_key : Option String
  pub auth_type : String
  pub auth_header : String
  pub auth_prefix : Option String
  pub extra_headers : List (String × String)
  pub endpoint_paths : List (String × String)
  pub stream_endpoint_paths : List (String × String)
  pub model_prefix : String
  pub name : Option String
  pub enabled : Bool
  pub priority : ℤ
  pub default_model : Option String
  pub supported_endpoints : List String
  pub rate_limit_protection : Bool
  pub last_error : Option String
  pub last_error_at : Option Time
  pub last_error_type : Option String
  pub last_error_source : Option String
  pub rate_limited_until : Option Time
  pub circuit_open_until : Option Time
  pub last_used_at : Option Time
  pub backoff_level : ℕ
  pub consecutive_use_count : ℕ
  pub test_status : Option String
  pub created_at : Time
  pub updated_at : Time
  pub protocol_format : Option String

pub record ProviderAccount : Type 0 where
  pub id : String
  pub provider_connection_id : String
  pub label : Option String
  pub auth_mode : ProviderAccountAuthMode
  pub api_key : Option String
  pub access_token : Option String
  pub refresh_token : Option String
  pub expires_at : Option Time
  pub scopes : List String
  pub remote_account_id : Option String
  pub remote_email : Option String
  pub is_fedramp : Bool
  pub enabled : Bool
  pub priority : ℤ
  pub last_used_at : Option Time
  pub rate_limited_until : Option Time
  pub circuit_open_until : Option Time
  pub last_error : Option String
  pub last_error_type : Option String
  pub last_refresh_at : Option Time
  pub refresh_error : Option String
  pub backoff_level : ℕ
  pub consecutive_use_count : ℕ
  pub proxy_url : Option String
  pub base_url : Option String
  pub protocol_format : Option String
  pub supported_endpoints : Option (List String)
  pub created_at : Time
  pub updated_at : Time

pub data ComboStrategy : Type 0 where
  priority_first round_robin : ComboStrategy

pub record Combo : Type 0 where
  pub id : String
  pub name : String
  pub strategy : ComboStrategy
  pub models : List String
  pub enabled : Bool
  pub created_at : Time
  pub updated_at : Time

pub record RoutingProviderAccount : Type 0 where
  pub id : String
  pub label : Option String
  pub auth_mode : ProviderAccountAuthMode
  pub remote_account_id : Option String
  pub remote_email : Option String

-- `From<&ProviderAccount>`.
unfoldable pub routing_provider_account : ProviderAccount → RoutingProviderAccount
routing_provider_account account = record {
  id = account.id;
  label = account.label;
  auth_mode = account.auth_mode;
  remote_account_id = account.remote_account_id;
  remote_email = account.remote_email;
}

pub record ProviderChatAttempt : Type 0 where
  pub provider_id : String
  pub model : String
  pub status : ℕ
  pub body : String
  pub account : Option RoutingProviderAccount
