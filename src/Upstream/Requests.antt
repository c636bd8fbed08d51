-- ===== src/Upstream/Requests.antt =====
-- src/upstream.rs: the request that is sent to a provider.
use kou_router.Prelude.{
  String, Bool, true, false, not, ◌||◌, Option, if◌then◌else◌, unwrap_or, and_then,
}
use kou_router.Text.{eq_ignore_ascii_case, contains}
use kou_router.Json.{Value, bool, string, object, get, as_bool, insert_field}
use kou_router.Models.{ProviderConnection}
use kou_router.Models.Endpoint.{EndpointKind, responses, same_endpoint}
use kou_router.Upstream.Paths.{endpoint_path, build_url}

unfoldable pub is_codex_responses_provider : ProviderConnection → Bool
is_codex_responses_provider p =
    eq_ignore_ascii_case p.provider "codex"
    || eq_ignore_ascii_case p.model_prefix "codex"
    || contains p.base_url "/backend-api/codex"

-- `as_object_mut` and `insert`.
abbrev pub insert_in : String → Value → Value → Value
insert_in key v (object o) = object (insert_field key v o)
insert_in key v other = other

unfoldable pub force_codex_responses_stream : ProviderConnection → EndpointKind → Value → Value
unfolding is_codex_responses_provider insert_field
force_codex_responses_stream provider endpoint request_body =
    if not (same_endpoint endpoint responses) || not (is_codex_responses_provider provider)
    then request_body
    else insert_in "stream" (bool true) request_body

pub record PreparedUpstreamRequest : Type 0 where
  pub request_body : Value
  pub path : String
  pub url : String

-- `request_body["model"] = ...` of an object; the code indexes objects only.
abbrev pub with_model : Bool → String → Value → Value
with_model inject_model model body =
    if inject_model then insert_in "model" (string model) body else body

unfoldable pub prepare_upstream_request :
    ProviderConnection
    → EndpointKind
    → Option String
    → String
    → Value
    → Bool
    → PreparedUpstreamRequest
unfolding force_codex_responses_stream endpoint_path build_url
prepare_upstream_request provider endpoint suffix model payload inject_model =
    let body =
      force_codex_responses_stream provider endpoint (with_model inject_model model payload) in
    let stream_requested = unwrap_or false (and_then (get body "stream") as_bool) in
    let path = endpoint_path provider endpoint suffix stream_requested in
    record { request_body = body; path = path; url = build_url provider.base_url path }
