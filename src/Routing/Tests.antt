-- ===== src/Routing/Tests.antt =====
-- The theorems on routing at concrete inputs.
use kou_router.Prelude.{
  ℕ, String, true, some, Option, List, [], ◌∷◌, ◌≡◌, refl, ◌<◌, All, arith, ◌&&◌, eq_iff,
}
use mathlib.Core.List.{Perm}
use kou_router.Text.{trim, eq_ignore_ascii_case}
use kou_router.Errors.{Result, ok, err, upstream}
use kou_router.Models.{
  routing_strategy_from_str, ProviderConnection, ProviderAccount, Combo, round_robin, by_turns,
}
use kou_router.Models.Endpoint.{capability, messages, supports_endpoint}
use kou_router.Prelude.Sort.{sort_by}
use kou_router.Repository.{
  list_provider_accounts, Repository, succeeded_provider, list_selectable_provider_accounts,
  get_provider_account_routing_config,
}
use kou_router.Repository.Tests.{named_provider, named_account, two_providers}
use kou_router.Routing.Formats.{
  from_provider, provider_supports_routed_endpoint, upstream_endpoint_for_provider,
}
use kou_router.Routing.Formats.Laws.{provider_supports_upstream_endpoint}
use kou_router.Routing.Models.{split_model, available, order_providers}
use kou_router.Routing.Models.Laws.{
  split_model-ModelSplit, ModelSplit, available_after_report, order_providers-IsSorted,
}
use kou_router.Routing.Candidates.{
  Turns, pick_round_robin, index, expand_combo, order_provider_accounts,
}
use kou_router.Routing.Candidates.Laws.{
  pick_round_robin_fair, turns_after, order_provider_accounts_turns,
}
use kou_router.Routing.Targets.{
  prepare_provider_account, provider_with_account_auth, execution_targets, codex_headers, lookup,
}
use kou_router.Routing.Targets.Admitted.{DeclaresItself, messages_only_without_targets}
use kou_router.Routing.Targets.Laws.{
  codex_headers-lookup, execution_targets-IsTarget, IsTarget, nonempty,
}

abbrev three : Turns
three k = 3

abbrev openai : ProviderConnection
openai = named_provider "openai"

abbrev responses_only : ProviderConnection
responses_only = record openai {
  protocol_format = some "openai-responses";
  supported_endpoints = "messages" ∷ [];
}

provider_supports_upstream_endpoint_example :
    provider_supports_routed_endpoint openai messages ≡ true
unfolding supports_endpoint
provider_supports_upstream_endpoint_example =
    (provider_supports_upstream_endpoint openai messages).0 refl

messages_only_without_targets_example :
    (provider_supports_routed_endpoint responses_only messages ≡ true) × All DeclaresItself []
unfolding execution_targets list_selectable_provider_accounts from_provider sort_by
    eq_ignore_ascii_case list_provider_accounts supports_endpoint trim capability
    upstream_endpoint_for_provider get_provider_account_routing_config order_provider_accounts
    routing_strategy_from_str prepare_provider_account provider_with_account_auth
messages_only_without_targets_example =
    messages_only_without_targets (λ id r. (err (upstream ""), r)) 0 responses_only two_providers
      three [] refl refl refl

split_model-ModelSplit_example : ModelSplit "openai/gpt-4o" (split_model "openai/gpt-4o")
split_model-ModelSplit_example = split_model-ModelSplit "openai/gpt-4o"

available_after_report_example :
    available 9 messages (succeeded_provider 8 openai)
    ≡ (true && provider_supports_routed_endpoint openai messages)
available_after_report_example = (available_after_report 8 "quota" openai 9 messages).1

order_providers-IsSorted_example :
    Perm (order_providers (λ s. true) (openai ∷ responses_only ∷ [])) (openai ∷ responses_only ∷ [])
order_providers-IsSorted_example =
    (order_providers-IsSorted (λ s. true) openai responses_only (openai ∷ responses_only ∷ [])).1

pick_round_robin_fair_example :
    (n : ℕ) × (n < 2)
    × ((pick_round_robin "c" ("a" ∷ "b" ∷ []) (turns_after "c" ("a" ∷ "b" ∷ []) n three)).0
        ≡ ok (index ("a" ∷ "b" ∷ []) 0))
pick_round_robin_fair_example =
    pick_round_robin_fair "c" "a" ("b" ∷ []) three 0 (omega arith) (omega arith)

abbrev combo : Combo
combo = record {
  id = "1";
  name = "c";
  strategy = round_robin;
  models = "a" ∷ "b" ∷ "c" ∷ [];
  enabled = true;
  created_at = 0;
  updated_at = 0;
}

expand_combo_runs : (expand_combo combo (λ k. 1)).0 ≡ ok ("b" ∷ "a" ∷ "c" ∷ [])
unfolding expand_combo
expand_combo_runs = refl

order_provider_accounts_turns_example :
    Perm
      (order_provider_accounts "openai"
        (named_account "a1" ∷ named_account "a2" ∷ [])
        by_turns
        three).0
      (named_account "a1" ∷ named_account "a2" ∷ [])
order_provider_accounts_turns_example =
    (order_provider_accounts_turns "openai" (named_account "a1" ∷ named_account "a2" ∷ []) by_turns
      three).0

codex_headers-lookup_example :
    lookup "ChatGPT-Account-ID" (codex_headers (named_account "a1") []) ≡ nonempty (some "remote")
unfolding lookup
codex_headers-lookup_example =
    (codex_headers-lookup (named_account "a1") [] "x"
      (λ e. ground (arith, eq_iff "x" "ChatGPT-Account-ID"))
      (λ e. ground (arith, eq_iff "x" "X-OpenAI-Fedramp"))).0

-- Refreshing always fails.
abbrev no_refresh : String → Repository → Result ProviderAccount × Repository
no_refresh id r = (err (upstream "offline"), r)

abbrev one_account : ProviderAccount
one_account = named_account "a1"

abbrev one_target : List (ProviderConnection × Option ProviderAccount)
one_target = (provider_with_account_auth openai one_account "openai", some one_account) ∷ []

abbrev with_account : Repository
with_account = record two_providers { accounts = one_account ∷ [] }

execution_targets_runs :
    (execution_targets no_refresh 7 openai messages with_account three).0 ≡ ok one_target
unfolding execution_targets list_selectable_provider_accounts sort_by
    get_provider_account_routing_config order_provider_accounts routing_strategy_from_str
    prepare_provider_account trim supports_endpoint provider_with_account_auth
execution_targets_runs = refl

execution_targets-IsTarget_example :
    All (IsTarget no_refresh 7 openai messages with_account) one_target
execution_targets-IsTarget_example =
    execution_targets-IsTarget no_refresh 7 openai messages with_account three
      execution_targets_runs
