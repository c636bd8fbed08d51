-- ===== src/RateLimit/Headers.antt =====
-- src/ratelimit.rs: reading the rate-limit headers of a response.
use kou_router.Prelude.{
  ℕ, String, Bool, false, Option, none, some, List, [], ◌∷◌, ltb, str_eq, if◌then◌else◌, unwrap_or,
  map_option, or_else, and_then, ◌-◌,
}
use kou_router.Text.{eq_ignore_ascii_case, parse_u64}
use kou_router.Models.{Time}
use kou_router.Upstream.{Headers}
use kou_router.RateLimit.{Floats, Dates, RateLimitInfo}

-- The closure `find`: the value of the first header with this name, whatever its case.
unfoldable pub find_header : String → Headers → Option String
find_header target [] = none
find_header target ((name, value) ∷ headers) =
    if eq_ignore_ascii_case name target then some value else find_header target headers

-- The first name that is there: the chain of `or_else`.
unfoldable pub first_header : List String → Headers → Option String
unfolding find_header
first_header [] headers = none
first_header (name ∷ names) headers =
    or_else (find_header name headers) (first_header names headers)

abbrev pub remaining_names : List String
remaining_names =
    "anthropic-ratelimit-requests-remaining" ∷ "anthropic-ratelimit-tokens-remaining"
    ∷ "x-ratelimit-remaining-requests" ∷ "x-ratelimit-remaining-tokens" ∷ "x-ratelimit-remaining"
    ∷ []

abbrev pub limit_names : List String
limit_names =
    "anthropic-ratelimit-requests-limit" ∷ "anthropic-ratelimit-tokens-limit"
    ∷ "x-ratelimit-limit-requests" ∷ "x-ratelimit-limit-tokens" ∷ "x-ratelimit-limit" ∷ []

abbrev pub reset_names : List String
reset_names =
    "anthropic-ratelimit-requests-reset" ∷ "anthropic-ratelimit-tokens-reset"
    ∷ "x-ratelimit-reset-requests" ∷ "x-ratelimit-reset-tokens" ∷ "x-ratelimit-reset" ∷ []

pub record UnifiedRateLimitInfo (F : Type 0) : Type 0 where
  pub status : Option String
  pub reset_at : Option Time
  pub fallback_available : Bool
  pub representative_claim : Option String
  pub utilization_5h : Option F
  pub utilization_7d : Option F
  pub reset_5h : Option Time
  pub reset_7d : Option Time
  pub surpassed_5h : Bool
  pub surpassed_7d : Bool
  pub overage_status : Option String
  pub overage_reset : Option Time
  pub overage_disabled_reason : Option String
  pub is_using_overage : Bool

-- `map(|v| v == text).unwrap_or(false)`.
abbrev pub says : String → Option String → Bool
says text o = unwrap_or false (map_option (λ v. str_eq v text) o)

module _ (fl : Floats) (dates : Dates) where
  unfoldable pub utilization : Option ℕ → Option ℕ → Option fl.F64
  utilization (some remaining) (some limit) =
      if ltb 0 limit then some (fl.percent (limit - remaining) limit) else none
  utilization (some remaining) none = none
  utilization none limit = none

  -- An epoch in seconds if the text is one, else a date.
  unfoldable pub parse_reset : String → Option Time
  parse_reset value = elim (dates.epoch value) [ some at ↦ at | none ↦ dates.parse_date value ]

  unfoldable pub parse_retry_after : String → Option ℕ
  parse_retry_after value = or_else (parse_u64 value) (map_option fl.ceil_u64 (fl.parse value))

  unfoldable pub parse_rate_limit_headers : Headers → RateLimitInfo fl.F64
  unfolding first_header utilization parse_reset parse_retry_after
  parse_rate_limit_headers headers =
      let remaining = and_then (first_header remaining_names headers) parse_u64 in
      let limit = and_then (first_header limit_names headers) parse_u64 in
      record {
        remaining = remaining;
        limit = limit;
        utilization_pct = utilization remaining limit;
        reset_at = and_then (first_header reset_names headers) parse_reset;
        retry_after_secs = and_then (find_header "retry-after" headers) parse_retry_after;
      }

  -- The fields, by the closure `find`, once the status is there.
  unfoldable pub unified_info : (String → Option String) → String → UnifiedRateLimitInfo fl.F64
  unified_info text status =
      let date = λ (name : String). and_then (text name) dates.parse_date in
      let number = λ (name : String). and_then (text name) fl.parse in
      record {
        status = some status;
        reset_at = date "anthropic-ratelimit-unified-reset";
        fallback_available = says "available" (text "anthropic-ratelimit-unified-fallback");
        representative_claim = text "anthropic-ratelimit-unified-representative-claim";
        utilization_5h = number "anthropic-ratelimit-unified-5h-utilization";
        utilization_7d = number "anthropic-ratelimit-unified-7d-utilization";
        reset_5h = date "anthropic-ratelimit-unified-5h-reset";
        reset_7d = date "anthropic-ratelimit-unified-7d-reset";
        surpassed_5h = says "true" (text "anthropic-ratelimit-unified-5h-surpassed-threshold");
        surpassed_7d = says "true" (text "anthropic-ratelimit-unified-7d-surpassed-threshold");
        overage_status = text "anthropic-ratelimit-unified-overage-status";
        overage_reset = date "anthropic-ratelimit-unified-overage-reset";
        overage_disabled_reason = text "anthropic-ratelimit-unified-overage-disabled-reason";
        is_using_overage = says "true" (text "anthropic-ratelimit-unified-is-using-overage");
      }

  unfoldable pub unified_found : (String → Option String) → Option (UnifiedRateLimitInfo fl.F64)
  unfolding unified_info
  unified_found find = map_option (unified_info find) (find "anthropic-ratelimit-unified-status")

  unfoldable pub parse_unified_rate_limit_headers : Headers → Option (UnifiedRateLimitInfo fl.F64)
  unfolding unified_found find_header
  parse_unified_rate_limit_headers headers = unified_found (λ target. find_header target headers)

  -- What the unified information adds to the legacy one.
  unfoldable pub enriched_by :
      RateLimitInfo fl.F64 → Option (UnifiedRateLimitInfo fl.F64) → RateLimitInfo fl.F64
  enriched_by info none = info
  enriched_by info (some unified) = record info {
    utilization_pct =
        if says "exceeded" unified.status
        then some fl.hundred
        else or_else info.utilization_pct unified.utilization_5h;
    reset_at = or_else info.reset_at unified.reset_at;
  }

  unfoldable pub enrich_with_unified : RateLimitInfo fl.F64 → Headers → RateLimitInfo fl.F64
  unfolding enriched_by parse_unified_rate_limit_headers
  enrich_with_unified info headers = enriched_by info (parse_unified_rate_limit_headers headers)
