-- ===== src/Repository/Tests.antt =====
-- The theorems on the repository at concrete inputs.
use kou_router.Prelude.{String, true, some, none, [], ◌∷◌, ◌≡◌, refl}
use kou_router.Models.{ProviderConnection, ProviderAccount, api_key_mode}
use kou_router.Models.Int.{pos}
use kou_router.Repository.{
  Repository, failed_account, succeeded_account, selectable, mark_provider_failure, resolve_alias,
  upsert_alias, delete_alias,
}
use kou_router.Repository.Health.{after, failure, success, after-counts, account_health}
use kou_router.Repository.Aliases.{resolve_alias_after}
use kou_router.Repository.Updates.{find_provider, mark_provider_rows}

abbrev pub named_provider : String → ProviderConnection
named_provider name = record {
  id = name;
  provider = name;
  base_url = "https://example.test";
  api_key = some "key";
  auth_type = "apikey";
  auth_header = "bearer";
  auth_prefix = none;
  extra_headers = [];
  endpoint_paths = [];
  stream_endpoint_paths = [];
  model_prefix = name;
  name = none;
  enabled = true;
  priority = pos 0;
  default_model = none;
  supported_endpoints = [];
  rate_limit_protection = true;
  last_error = none;
  last_error_at = none;
  last_error_type = none;
  last_error_source = none;
  rate_limited_until = none;
  circuit_open_until = none;
  last_used_at = none;
  backoff_level = 0;
  consecutive_use_count = 0;
  test_status = none;
  created_at = 0;
  updated_at = 0;
  protocol_format = none;
}

abbrev pub named_account : String → ProviderAccount
named_account name = record {
  id = name;
  provider_connection_id = "openai";
  label = none;
  auth_mode = api_key_mode;
  api_key = some "key";
  access_token = none;
  refresh_token = none;
  expires_at = none;
  scopes = [];
  remote_account_id = some "remote";
  remote_email = none;
  is_fedramp = true;
  enabled = true;
  priority = pos 0;
  last_used_at = none;
  rate_limited_until = none;
  circuit_open_until = none;
  last_error = none;
  last_error_type = none;
  last_refresh_at = none;
  refresh_error = none;
  backoff_level = 0;
  consecutive_use_count = 0;
  proxy_url = none;
  base_url = none;
  protocol_format = none;
  supported_endpoints = none;
  created_at = 0;
  updated_at = 0;
}

abbrev pub two_providers : Repository
two_providers = record {
  providers = named_provider "openai" ∷ named_provider "anthropic" ∷ [];
  accounts = named_account "a1" ∷ named_account "a2" ∷ [];
  strategies = ("openai", "round-robin") ∷ ("anthropic", "priority") ∷ [];
  combos = [];
  aliases = ("fast", "openai/gpt-4o-mini") ∷ [];
}

after-counts_example :
    ((after
        (failure 9 "x" ∷ failure 8 "y" ∷ success 7 ∷ failure 6 "z" ∷ [])
        (named_provider "openai")).backoff_level
      ≡ 2)
    × ((after
          (failure 9 "x" ∷ failure 8 "y" ∷ success 7 ∷ failure 6 "z" ∷ [])
          (named_provider "openai")).consecutive_use_count
        ≡ 0)
after-counts_example =
    after-counts (named_provider "openai")
      (failure 9 "x" ∷ failure 8 "y" ∷ success 7 ∷ failure 6 "z" ∷ []) refl refl

account_health_example :
    selectable 100 (succeeded_account 100 (failed_account 99 "429" (named_account "a1"))) ≡ true
unfolding failed_account
account_health_example =
    (account_health 100 "429" (failed_account 99 "429" (named_account "a1")) 100).1

resolve_alias_after_example :
    (resolve_alias "fast" (upsert_alias "slow" "openai/o1" two_providers)
      ≡ resolve_alias "fast" two_providers)
    × (resolve_alias "fast" (delete_alias "slow" two_providers).1
        ≡ resolve_alias "fast" two_providers)
resolve_alias_after_example = resolve_alias_after "fast" "slow" "openai/o1" two_providers

mark_provider_rows_example :
    find_provider "anthropic" (mark_provider_failure 5 "openai" "quota" two_providers)
    ≡ some (named_provider "anthropic")
unfolding find_provider
mark_provider_rows_example = (mark_provider_rows 5 "openai" "quota" "anthropic" two_providers).0
