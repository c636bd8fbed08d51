-- ===== src/Route/Plan.antt =====
-- src/service.rs: what is decided before a request is sent to a target.
use kou_router.Prelude.{
  String, Bool, true, false, ◌&&◌, ◌||◌, Option, none, some, List, [], ◌∷◌, ◌+◌, not, if◌then◌else◌,
  unwrap_or, map_option, any, str_eq,
}
use kou_router.Text.{to_ascii_lowercase, contains}
use kou_router.Json.{Value}
use kou_router.Models.{
  Time, ProviderConnection, ProviderAccount, ProviderAccountAuthMode, api_key_mode, oauth_mode,
}
use kou_router.Models.Endpoint.{as_str}
use kou_router.Repository.{seconds}
use kou_router.Routing.Formats.{ProtocolFormat, claude, same_format}
use kou_router.Upstream.{Headers}
use kou_router.Upstream.Passthrough.{merge}
use kou_router.Upstream.Requests.{PreparedUpstreamRequest, prepare_upstream_request}
use kou_router.ResponseCache.{enabled}
use kou_router.ResponseCache.Key.{ResponseCacheIdentity, build_identity}
use kou_router.ResponseCache.Policy.{ResponseCachePolicy, allow, evaluate_policy}
use kou_router.Route.{
  ProviderKind, first_party, foundry, vertex, bedrock, other, OAuthContext, Fingerprint, Env,
}
use kou_router.Route.State.{Call, Aim, Progress, request_debug_log, spawn}

abbrev pub among : List String → String → Bool
among names name = any (str_eq name) names

unfoldable pub classify_provider : ProviderConnection → ProviderKind
classify_provider provider =
    let name = to_ascii_lowercase provider.provider in
    let url = to_ascii_lowercase provider.base_url in
    if among ("anthropic" ∷ "claude-oauth" ∷ "anthropic-oauth" ∷ "claude" ∷ []) name
      || contains url "api.anthropic.com"
    then first_party
    else if str_eq name "foundry" || contains url "services.ai.azure.com"
    then foundry
    else if str_eq name "vertex" || contains url "aiplatform.googleapis.com"
    then vertex
    else if str_eq name "bedrock" || contains url "amazonaws.com"
    then bedrock
    else other

abbrev pub is_first_party : ProviderKind → Bool
is_first_party first_party = true
is_first_party _ = false

abbrev pub context_by_mode :
    ProviderAccountAuthMode → ProviderAccount → ProviderKind → Option OAuthContext
context_by_mode api_key_mode account kind = none
context_by_mode oauth_mode account kind =
    some (record {
      account_uuid = account.remote_account_id;
      is_oauth_subscriber = is_first_party kind;
    })

unfoldable pub build_oauth_context : Option ProviderAccount → ProviderKind → Option OAuthContext
build_oauth_context none kind = none
build_oauth_context (some account) kind = context_by_mode account.auth_mode account kind

-- `needs_injection` of src/fingerprint.rs.
unfoldable pub needs_injection : Fingerprint → ProtocolFormat → Option Headers → Bool
needs_injection fingerprint target_format passthrough =
    fingerprint.enabled
    && same_format target_format claude
    && not (
        unwrap_or false (
          map_option (any (λ (h : String × String). str_eq (to_ascii_lowercase h.0) "x-app"))
            passthrough))

module _ (env : Env) where
  -- The request as it goes out, and what the cache may do with it.
  pub record Sent : Type 0 where
    pub headers : Option Headers
    pub prepared : PreparedUpstreamRequest
    pub identity : Option ResponseCacheIdentity
    pub policy : ResponseCachePolicy
    pub expires_at : Option Time

  -- The body and the headers, with the fingerprint where it is needed.
  unfoldable pub final_request : Call env → Aim env → Value × Option Headers
  unfolding classify_provider build_oauth_context needs_injection merge
  final_request call aim =
      let provider_kind = classify_provider aim.provider in
      let oauth_ctx = build_oauth_context aim.account provider_kind in
      if needs_injection env.fingerprint aim.target_format call.passthrough
      then (
        env.fingerprint.inject_body aim.provider_body call.normalized.body oauth_ctx,
        some (
            merge (env.fingerprint.generate_headers aim.raw_model provider_kind oauth_ctx)
              (unwrap_or [] call.passthrough)),
      )
      else (aim.provider_body, call.passthrough)

  abbrev pub account_id : Aim env → Option String
  account_id aim = map_option (λ (a : ProviderAccount). a.id) aim.account

  unfoldable pub sent_request : Call env → Aim env → Sent
  unfolding final_request prepare_upstream_request build_identity evaluate_policy
  sent_request call aim =
      let final = final_request call aim in
      let prepared =
        prepare_upstream_request aim.resolved_provider aim.upstream_endpoint call.suffix
          aim.raw_model final.0 call.normalized.inject_model in
      let policy =
        if enabled call.cache_context
        then evaluate_policy call.endpoint prepared.request_body final.1
            call.cache_context.allow_nondeterministic_chat
        else allow in
      record {
        headers = final.1;
        prepared = prepared;
        identity =
            if enabled call.cache_context
            then some (
                build_identity env.to_string env.sha256_hex call.endpoint aim.upstream_endpoint
                  call.normalized.model call.resolved_model aim.provider.id (account_id aim)
                  call.cache_context.namespace prepared call.normalized.stream)
            else none;
        policy = policy;
        expires_at =
            if call.cache_context.write && policy.cacheable
            then map_option (λ ttl. env.now + seconds ttl) call.cache_context.ttl
            else none;
      }

  -- The next sequence number and the debug row of the request.
  unfoldable pub logged : Call env → Aim env → Sent → Progress env → Progress env
  unfolding spawn
  logged call aim sent p =
      let sequence_no = p.debug_sequence_no + 1 in
      spawn env
        (request_debug_log (record {
          request_id = call.request_id;
          provider_id = aim.provider.id;
          provider_account_id = account_id aim;
          model = aim.candidate;
          endpoint = as_str call.endpoint;
          sequence_no = sequence_no;
          raw_body = env.to_string sent.prepared.request_body;
        }))
        (record p { debug_sequence_no = sequence_no })
