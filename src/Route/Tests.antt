-- ===== src/Route/Tests.antt =====
-- The theorems on `route` at concrete inputs.
use kou_router.Prelude.{String, Option, ℕ, true, false, none, some, [], ◌∷◌, if◌then◌else◌, str_eq}
use kou_router.Errors.{Result, ok, err, upstream}
use kou_router.Json.{Value, string, json_object, array_of}
use kou_router.Models.{ProviderConnection, priority_first}
use kou_router.Models.Endpoint.{chat_completions}
use kou_router.Upstream.{buffered, ProviderResponse}
use kou_router.Repository.Tests.{named_provider}
use kou_router.Routing.Targets.{Target}
use kou_router.RateLimit.Tests.{fractions, dates}
use kou_router.Cost.Pricing.{Money}
use kou_router.ResponseCache.{ResponseCacheContext}
use kou_router.Translate.{Translators}
use kou_router.Route.{Env}
use kou_router.Route.Raw.{RawRoutedResponse, RawCall}
use kou_router.Route.State.{World, Call, Aim, answer}
use kou_router.Route.Run.{route, aim_at, try_targets, started}
use kou_router.Route.Laws.Trail.{Trail}
use kou_router.Route.Laws.Order.{Ran, try_targets-Ran}
use kou_router.Route.Laws.Whole.{TriedFor, MissingFor, CandidateOf, route-Trail}

abbrev whole_cents : Money
whole_cents = record {
  F64 = ℕ;
  literal = λ n. n;
  millions = λ n. n;
  times = λ a b. a;
  plus = λ a b. a;
  nothing = 0;
}

abbrev same_body : Translators
same_body = record {
  openai_to_claude = λ model body stream. ok body;
  claude_to_openai = λ body. ok body;
  openai_to_gemini = λ model body stream. ok body;
  gemini_to_openai = λ body. ok body;
  openai_to_ollama = λ model body stream. ok body;
  ollama_to_openai = λ body. ok body;
  openai_to_responses = λ model body stream. ok body;
  claude_to_responses = λ model body stream. ok body;
  responses_to_openai = λ body. ok body;
}

abbrev too_many : ProviderResponse
too_many = record { status = 429; body = "slow down"; is_stream = false; response_headers = [] }

abbrev fine : ProviderResponse
fine = record { status = 200; body = "hello"; is_stream = false; response_headers = [] }

-- The provider "openai" has too many requests, and the others answer.
abbrev one_limited : Env
one_limited = record {
  now = 100;
  floats = fractions;
  dates = dates;
  money = whole_cents;
  from_str = λ s. some (string s);
  to_string = λ v. "";
  sha256_hex = λ s. s;
  ceil_secs = λ s. none;
  idle_secs = "60";
  retry_config = record {
    max_retries = 0;
    base_delay_ms = 1;
    max_delay_ms = 1;
    respect_retry_after = false;
  };
  warn_threshold = (90, 1);
  translators = same_body;
  fingerprint = record {
    enabled = false;
    inject_body = λ body original context. body;
    generate_headers = λ model kind context. [];
  };
  jitter = λ k attempt. 0;
  upstream = λ k provider endpoint model prepared headers proxy attempt.
      ok (buffered (if str_eq provider.id "openai" then too_many else fine));
  refresh = λ id r. (err (upstream "no refresh"), r);
}

abbrev empty_world : World one_limited
empty_world = record {
  repository = record {
    providers = named_provider "openai" ∷ named_provider "spare" ∷ [];
    accounts = [];
    strategies = [];
    combos =
        record {
          id = "1";
          name = "both";
          strategy = priority_first;
          models = "openai/a" ∷ "spare/b" ∷ [];
          enabled = true;
          created_at = 0;
          updated_at = 0;
        }
        ∷ [];
    aliases = [];
  };
  cache = [];
  turns = λ s. 0;
  rates = [];
  executions = 0;
  tasks = [];
}

abbrev asked : Value
asked = json_object (("model", string "both") ∷ ("messages", array_of []) ∷ [])

abbrev no_cache : ResponseCacheContext
no_cache = record {
  read = false;
  write = false;
  ttl = none;
  namespace = "";
  allow_nondeterministic_chat = false;
}

route-Trail_example :
    let o = route one_limited chat_completions asked none none "r" no_cache empty_world in
    let IsCandidate = CandidateOf one_limited chat_completions asked empty_world in
    Trail one_limited chat_completions
      (TriedFor one_limited chat_completions empty_world.repository IsCandidate)
      (MissingFor one_limited chat_completions empty_world.repository IsCandidate)
      []
      (answer o.0, o.1)
route-Trail_example =
    route-Trail one_limited chat_completions asked none none "r" no_cache empty_world

abbrev spare_call : Call one_limited
spare_call = record {
  endpoint = chat_completions;
  suffix = none;
  passthrough = none;
  request_id = "r";
  cache_context = no_cache;
  normalized = record { model = "both"; stream = false; body = asked; inject_model = true };
  resolved_model = "both";
}

abbrev spare_aim : Target → Aim one_limited
spare_aim = aim_at one_limited spare_call "spare/b" "b" (named_provider "spare") asked

abbrev own : Target
own = (named_provider "spare", none)

try_targets-Ran_example : Ran one_limited spare_call spare_aim [] (own ∷ own ∷ []) (
    try_targets one_limited spare_call spare_aim (own ∷ own ∷ []) (started one_limited empty_world))
try_targets-Ran_example =
    try_targets-Ran one_limited spare_call spare_aim (own ∷ own ∷ [])
      (started one_limited empty_world)

abbrev raw_call : RawCall
raw_call = record {
  request_id = "r";
  endpoint = chat_completions;
  method = "POST";
  upstream_path = "/v1/files";
  payload = some (json_object (("model", string "openai/a") ∷ []));
  passthrough = none;
}

abbrev exchange : ℕ → ProviderConnection → RawCall → Option String → Result RawRoutedResponse
exchange k provider call proxy_url = ok (record {
  status = if str_eq provider.id "openai" then 429 else 200;
  body = "";
  content_type = none;
  response_headers = [];
})
