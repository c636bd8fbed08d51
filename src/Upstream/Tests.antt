-- ===== src/Upstream/Tests.antt =====
-- The theorems on requests to upstreams at concrete inputs.
use kou_router.Prelude.{some, [], ◌∷◌, ◌≡◌}
use kou_router.Models.{ProviderConnection}
use kou_router.RateLimit.Headers.{find_header}
use kou_router.Repository.Tests.{named_provider}
use kou_router.Text.{eq_ignore_ascii_case, to_ascii_lowercase}
use kou_router.Upstream.Passthrough.{merge}
use kou_router.Upstream.Passthrough.Laws.{merge-find_header}

merge-find_header_example :
    find_header "x-app" (merge (("X-App", "b") ∷ []) (("x-app", "a") ∷ [])) ≡ some "a"
unfolding find_header to_ascii_lowercase eq_ignore_ascii_case
merge-find_header_example = merge-find_header "x-app" (("X-App", "b") ∷ []) (("x-app", "a") ∷ [])

abbrev stream_path : ProviderConnection
stream_path = record (named_provider "openai") {
  stream_endpoint_paths = ("responses", "/v2/responses") ∷ [];
}
