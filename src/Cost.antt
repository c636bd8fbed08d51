-- ===== src/Cost.antt =====
-- src/cost.rs: the usage that a response reports and what it costs. The `f64` of prices and costs is
-- a type with the operations in use; a price literal is given in thousandths of a dollar.
pub mod Pricing
pub mod Laws
mod Tests
use kou_router.Prelude.{
  ℕ, ◌+◌, ◌%◌, ◌^◌, String, Bool, true, false, ◌&&◌, ◌||◌, Option, none, some, List, [], ◌∷◌, ◌==◌,
  ltb, str_eq, if◌then◌else◌, unwrap_or, or_else, and_then,
}
use kou_router.Text.{trim, is_empty_text, strip_prefix, lines}
use kou_router.Json.{Value, get, as_u64}

pub record UsageInfo : Type 0 where
  pub input_tokens : ℕ
  pub output_tokens : ℕ
  pub cache_read_tokens : Option ℕ
  pub cache_creation_tokens : Option ℕ
  pub total_tokens : ℕ

-- `get(key).and_then(as_u64)`.
abbrev pub number_at : Value → String → Option ℕ
number_at v key = and_then (get v key) as_u64

-- `get(outer).and_then(get(inner)).and_then(as_u64)`.
abbrev pub number_within : Value → String → String → Option ℕ
number_within v outer inner = and_then (get v outer) (λ details. number_at details inner)

-- `u64` addition in a release build.
abbrev pub plus_u64 : ℕ → ℕ → ℕ
plus_u64 a b = (a + b) % 2 ^ 64

-- The early return of an empty usage.
unfoldable pub nonzero : UsageInfo → Option UsageInfo
nonzero u = if u.input_tokens == 0 && u.output_tokens == 0 then none else some u

-- The format of OpenAI, which those of Claude and of the Responses API share.
unfoldable pub openai_usage : Value → Option UsageInfo
unfolding nonzero
openai_usage usage =
    let input =
      unwrap_or 0
        (and_then (or_else (get usage "prompt_tokens") (get usage "input_tokens")) as_u64) in
    let output =
      unwrap_or 0
        (and_then (or_else (get usage "completion_tokens") (get usage "output_tokens")) as_u64) in
    nonzero (record {
      input_tokens = input;
      output_tokens = output;
      cache_read_tokens = or_else (number_at usage "cache_read_input_tokens") (
          or_else (number_within usage "prompt_tokens_details" "cached_tokens")
            (number_within usage "input_tokens_details" "cached_tokens"));
      cache_creation_tokens = number_at usage "cache_creation_input_tokens";
      total_tokens = unwrap_or (plus_u64 input output) (number_at usage "total_tokens");
    })

unfoldable pub gemini_usage : Value → Option UsageInfo
unfolding nonzero
gemini_usage meta =
    let input = unwrap_or 0 (number_at meta "promptTokenCount") in
    let output = unwrap_or 0 (number_at meta "candidatesTokenCount") in
    nonzero (record {
      input_tokens = input;
      output_tokens = output;
      cache_read_tokens = none;
      cache_creation_tokens = none;
      total_tokens = unwrap_or (plus_u64 input output) (number_at meta "totalTokenCount");
    })

unfoldable pub extract_usage : Value → Option UsageInfo
unfolding openai_usage gemini_usage
extract_usage body = elim (get body "usage") [
  | some usage ↦ openai_usage usage
  | none ↦ and_then (get body "usageMetadata") gemini_usage
]

-- The four variables of `extract_usage_from_sse`.
pub record Tally : Type 0 where
  pub input : ℕ
  pub output : ℕ
  pub cache_read : Option ℕ
  pub cache_creation : Option ℕ

abbrev pub empty_tally : Tally
empty_tally = record { input = 0; output = 0; cache_read = none; cache_creation = none }

-- What one usage does to the variables.
unfoldable pub count_usage : UsageInfo → Tally → Tally
count_usage u t = record {
  input = if ltb 0 u.input_tokens then u.input_tokens else t.input;
  output = if ltb 0 u.output_tokens then u.output_tokens else t.output;
  cache_read = or_else u.cache_read_tokens t.cache_read;
  cache_creation = or_else u.cache_creation_tokens t.cache_creation;
}

-- `if let Some(usage) = ...`.
unfoldable pub count_found : Option UsageInfo → Tally → Tally
unfolding count_usage
count_found none t = t
count_found (some u) t = count_usage u t

unfoldable pub count_candidate : Option Value → Tally → Tally
unfolding extract_usage count_found
count_candidate candidate t = count_found (and_then candidate extract_usage) t

unfoldable pub count_value : Value → Tally → Tally
unfolding count_candidate
count_value value t =
    count_candidate (get value "message")
      (count_candidate (get value "response") (count_candidate (some value) t))

unfoldable pub finish : Tally → Option UsageInfo
unfolding nonzero
finish t = nonzero (record {
  input_tokens = t.input;
  output_tokens = t.output;
  cache_read_tokens = t.cache_read;
  cache_creation_tokens = t.cache_creation;
  total_tokens = plus_u64 t.input t.output;
})

-- An event that could be read, or `continue`.
unfoldable pub count_event : Option Value → Tally → Tally
unfolding count_value
count_event none t = t
count_event (some value) t = count_value value t

module _ (from_str : String → Option Value) where
  -- The JSON of a line: `continue` is `none`.
  unfoldable pub event_of : String → Option Value
  event_of line = and_then (strip_prefix "data:" line) (λ rest.
      let text = trim rest in
      if is_empty_text text || str_eq text "[DONE]" then none else from_str text)

  unfoldable pub count_line : String → Tally → Tally
  unfolding event_of count_event
  count_line line t = count_event (event_of line) t

  unfoldable pub count_lines : List String → Tally → Tally
  unfolding count_line
  count_lines [] t = t
  count_lines (line ∷ rest) t = count_lines rest (count_line line t)

  unfoldable pub extract_usage_from_sse : String → Option UsageInfo
  unfolding count_lines finish lines
  extract_usage_from_sse transcript = finish (count_lines (lines transcript) empty_tally)
