-- ===== src/Cost/Tests.antt =====
-- The theorems on usage and cost at concrete inputs.
use kou_router.Prelude.{String, Option, none, some, [], ◌∷◌, ◌≡◌, str_eq, if◌then◌else◌}
use kou_router.Text.{strip_prefix, trim, lines}
use kou_router.Json.{as_u64, get, Value, json_object, number, pos_int}
use kou_router.Cost.{extract_usage, extract_usage_from_sse}
use kou_router.Cost.Laws.{usages_after, extract_usage_from_sse_last}

abbrev chunk : Value
chunk = json_object (
    (
      "usage",
      json_object
          (("prompt_tokens", number (pos_int 5)) ∷ ("completion_tokens", number (pos_int 7)) ∷ []),
    )
    ∷ [])

abbrev parse_chunk : String → Option Value
parse_chunk s = if str_eq s "{}" then some chunk else none

extract_usage_from_sse_last_example :
    extract_usage_from_sse parse_chunk "data: {}\n\ndata: [DONE]\n"
    ≡ some (record {
      input_tokens = 5;
      output_tokens = 7;
      cache_read_tokens = none;
      cache_creation_tokens = none;
      total_tokens = 12;
    })
unfolding usages_after lines extract_usage get json_object strip_prefix trim as_u64
extract_usage_from_sse_last_example =
    extract_usage_from_sse_last parse_chunk "data: {}\n\ndata: [DONE]\n"
