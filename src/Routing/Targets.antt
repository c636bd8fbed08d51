-- ===== src/Routing/Targets.antt =====
-- src/service.rs and src/upstream.rs: the accounts of a provider that a request is sent with. The
-- instant of a call is read once; refreshing an OAuth account is a parameter, a function of the
-- account's id and the database that answers and may change the database.
pub mod Laws
pub mod Admitted
use Prim.Native.String.{compare}
use Prim.Native.Nat.{Ordering}
use kou_router.Prelude.{
  ℕ, ◌+◌, ◌*◌, String, Bool, true, false, not, ◌||◌, Option, none, some, List, [], ◌∷◌, leb, str_eq,
  if◌then◌else◌, is_empty, unwrap_or, map_option, keep, find_first, and_then,
}
use kou_router.Text.{trim, is_empty_text, eq_ignore_ascii_case, trim_end_slashes}
use kou_router.Errors.{Result, ok, err}
use kou_router.Errors.Body.{display}
use kou_router.Models.{
  ProviderAccountRoutingStrategy, Time, ProviderConnection, ProviderAccount,
  ProviderAccountAuthMode, api_key_mode, oauth_mode,
}
use kou_router.Models.Endpoint.{EndpointKind, supports_endpoint}
use kou_router.Repository.{
  Repository, seconds, list_provider_accounts, list_selectable_provider_accounts,
  get_provider_account_routing_config, record_provider_account_refresh_error,
}
use kou_router.Routing.Candidates.{Turns, order_provider_accounts}

unfoldable pub has_secret : Option String → Bool
has_secret none = false
has_secret (some secret) = not (is_empty_text (trim secret))

-- `BTreeMap::get`, `insert`, `entry(k).or_insert_with(...)` and `remove`.
unfoldable pub lookup : String → List (String × String) → Option String
lookup k [] = none
lookup k ((j, w) ∷ rest) = if str_eq j k then some w else lookup k rest

unfoldable pub put_header : String → String → List (String × String) → List (String × String)
put_header k v [] = (k, v) ∷ []
put_header k v ((j, w) ∷ rest) = elim (compare k j) [
  | Ordering.lt ↦ (k, v) ∷ (j, w) ∷ rest
  | Ordering.eq ↦ (j, v) ∷ rest
  | Ordering.gt ↦ (j, w) ∷ put_header k v rest
]

unfoldable pub or_insert : String → String → List (String × String) → List (String × String)
unfolding put_header lookup
or_insert k v m = elim (lookup k m) [ some w ↦ m | none ↦ put_header k v m ]

abbrev pub remove : String → List (String × String) → List (String × String)
remove k m = keep (λ (h : String × String). not (str_eq h.0 k)) m

abbrev pub is_empty_value : Option String → Bool
is_empty_value none = false
is_empty_value (some v) = is_empty_text v

-- The account and FedRAMP headers of an OAuth account of Codex.
unfoldable pub codex_headers : ProviderAccount → List (String × String) → List (String × String)
unfolding or_insert lookup
codex_headers account headers =
    let named = or_insert "ChatGPT-Account-ID" (unwrap_or "" account.remote_account_id) headers in
    let cleaned =
      if is_empty_value (lookup "ChatGPT-Account-ID" named)
      then remove "ChatGPT-Account-ID" named
      else named in
    if account.is_fedramp then or_insert "X-OpenAI-Fedramp" "true" cleaned else cleaned

-- A trimmed text, if it is not empty.
abbrev pub filled : Option String → Option String
filled o = and_then o (λ v. if is_empty_text (trim v) then none else some (trim v))

abbrev pub listed : Option (List String) → Option (List String)
listed o = and_then o (λ values. if is_empty values then none else some values)

-- The key and the headers, by the account's mode.
unfoldable pub with_credentials :
    ProviderAccountAuthMode → ProviderAccount → String → ProviderConnection → ProviderConnection
unfolding codex_headers
with_credentials api_key_mode account provider_id p = record p { api_key = account.api_key }
with_credentials oauth_mode account provider_id p = record p {
  api_key = account.access_token;
  extra_headers =
      if eq_ignore_ascii_case provider_id "codex"
      then codex_headers account p.extra_headers
      else p.extra_headers;
}

unfoldable pub provider_with_account_auth :
    ProviderConnection → ProviderAccount → String → ProviderConnection
unfolding with_credentials
provider_with_account_auth provider account provider_id =
    let resolved = with_credentials account.auth_mode account provider_id provider in
    record resolved {
      base_url =
          unwrap_or resolved.base_url (map_option trim_end_slashes (filled account.base_url));
      protocol_format = elim (filled account.protocol_format) [
        | some f ↦ some f
        | none ↦ resolved.protocol_format
      ];
      supported_endpoints =
          unwrap_or resolved.supported_endpoints (listed account.supported_endpoints);
    }

abbrev pub Target : Type 0
Target = ProviderConnection × Option ProviderAccount

abbrev pub no_token_message : String
no_token_message = "provider account has no access token after refresh"

module _ (refresh : String → Repository → Result ProviderAccount × Repository) (now : Time) where
  unfoldable pub needs_refresh : ProviderAccount → Bool
  unfolding has_secret
  needs_refresh account = elim account.expires_at [
    | some expires_at ↦ leb expires_at (now + seconds (5 * 60))
    | none ↦ not (has_secret account.access_token)
  ]

  -- The account with its token, or the note that it has none.
  unfoldable pub with_token : ProviderAccount → Repository → Option ProviderAccount × Repository
  unfolding has_secret
  with_token account r =
      if has_secret account.access_token
      then (some account, r)
      else (none, record_provider_account_refresh_error now account.id no_token_message r)

  -- The result of a refresh of the account with this id.
  unfoldable pub refreshed :
      String → Result ProviderAccount × Repository → Option ProviderAccount × Repository
  unfolding with_token
  refreshed id (ok account, r) = with_token account r
  refreshed id (err e, r) = (none, record_provider_account_refresh_error now id (display e) r)

  unfoldable pub prepare_oauth : ProviderAccount → Repository → Option ProviderAccount × Repository
  unfolding needs_refresh refreshed
  prepare_oauth account r =
      if needs_refresh account
      then refreshed account.id (refresh account.id r)
      else with_token account r

  unfoldable pub prepare_by_mode :
      ProviderAccountAuthMode → ProviderAccount → Repository → Option ProviderAccount × Repository
  unfolding prepare_oauth has_secret
  prepare_by_mode api_key_mode account r =
      let has_custom_endpoint =
        unwrap_or false (map_option (λ v. not (is_empty_text (trim v))) account.base_url) in
      (if has_secret account.api_key || has_custom_endpoint then some account else none, r)
  prepare_by_mode oauth_mode account r = prepare_oauth account r

  unfoldable pub prepare_provider_account :
      ProviderAccount → Repository → Option ProviderAccount × Repository
  unfolding prepare_by_mode
  prepare_provider_account account r = prepare_by_mode account.auth_mode account r

  module _ (provider : ProviderConnection) (endpoint : EndpointKind) where
    -- One prepared account as a target, in front of the later ones.
    unfoldable pub add_target : Option ProviderAccount → List Target → List Target
    add_target none targets = targets
    add_target (some account) targets =
        let resolved = provider_with_account_auth provider account provider.provider in
        if supports_endpoint resolved.supported_endpoints endpoint
        then (resolved, some account) ∷ targets
        else targets

    unfoldable pub collect_targets : List ProviderAccount → Repository → List Target × Repository
    unfolding add_target
    collect_targets [] r = ([], r)
    collect_targets (account ∷ accounts) r =
        let prepared = prepare_provider_account account r in
        let rest = collect_targets accounts prepared.1 in (add_target prepared.0 rest.0, rest.1)

    -- Without a selectable account: the provider's own key, if it has no accounts at all.
    unfoldable pub own_target : Repository → List Target
    own_target r =
        if eq_ignore_ascii_case provider.auth_type "oauth"
          || eq_ignore_ascii_case provider.provider "custom"
        then []
        else if is_empty (list_provider_accounts provider.id r)
        then if supports_endpoint provider.supported_endpoints endpoint
          then (provider, none) ∷ []
          else []
        else []

    -- The targets of the selectable accounts, once the routing configuration is read.
    unfoldable pub account_targets :
        List ProviderAccount
        → Result ProviderAccountRoutingStrategy
        → Repository
        → Turns
        → Result (List Target) × Repository × Turns
    unfolding collect_targets
    account_targets accounts (err e) r turns = (err e, r, turns)
    account_targets accounts (ok strategy) r turns =
        let ordered = order_provider_accounts provider.id accounts strategy turns in
        let collected = collect_targets ordered.0 r in (ok collected.0, collected.1, ordered.1)

    unfoldable pub execution_targets :
        Repository → Turns → Result (List Target) × Repository × Turns
    unfolding own_target account_targets
    execution_targets r turns =
        let accounts = list_selectable_provider_accounts now provider.id r in
        if is_empty accounts
        then (ok (own_target r), r, turns)
        else account_targets accounts (get_provider_account_routing_config provider.id r) r turns
