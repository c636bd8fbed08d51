-- ===== src/RateLimit/Tests.antt =====
-- The theorems on rate limits at concrete inputs; a number of `f64` is its text or a share.
use kou_router.Prelude.{ℕ, true, none, some, [], ◌∷◌, leb, ◌≡◌, refl, ◌*◌, arith, map_option, ◌-◌}
use kou_router.Text.{parse_u64, eq_ignore_ascii_case}
use kou_router.Upstream.{Headers}
use kou_router.RateLimit.{Floats, Dates, RateLimitInfo, update, is_near_limit}
use kou_router.RateLimit.Headers.{parse_rate_limit_headers, enrich_with_unified, first_header}
use kou_router.RateLimit.Laws.{
  after, is_near_limit_latest, near_limit_after_response, unified_only_untracked,
}

-- Shares as fractions of natural numbers.
abbrev pub fractions : Floats
fractions = record {
  F64 = ℕ × ℕ;
  parse = λ s. map_option (λ n. (n, 1)) (parse_u64 s);
  percent = λ used limit. (used * 100, limit);
  hundred = (100, 1);
  ge = λ a b. leb (b.0 * a.1) (a.0 * b.1);
  ceil_u64 = λ a. a.0;
}

abbrev pub dates : Dates
dates = record { parse_date = λ s. none; epoch = λ s. map_option some (parse_u64 s) }

abbrev said : ℕ → ℕ → RateLimitInfo (ℕ × ℕ)
said left limit = record {
  remaining = some left;
  limit = some limit;
  reset_at = none;
  utilization_pct = some ((limit - left) * 100, limit);
  retry_after_secs = none;
}

is_near_limit_latest_example :
    is_near_limit
      (ℕ × ℕ)
      fractions.ge
      (85, 1)
      "a"
      (after (ℕ × ℕ) ((2, "b", said 1 100) ∷ (1, "a", said 10 100) ∷ []))
    ≡ true
is_near_limit_latest_example =
    (is_near_limit_latest (ℕ × ℕ) fractions.ge (85, 1) "a"
      ((2, "b", said 1 100) ∷ (1, "a", said 10 100) ∷ [])).0

abbrev headers : Headers
headers = ("X-RateLimit-Remaining", "10") ∷ ("x-ratelimit-limit", "100") ∷ []

abbrev lowered : Headers
lowered = ("x-ratelimit-remaining", "10") ∷ ("x-ratelimit-limit", "100") ∷ []

near_limit_after_response_example :
    is_near_limit
      (ℕ × ℕ)
      fractions.ge
      (85, 1)
      "a"
      (update (ℕ × ℕ) 7 "a" (parse_rate_limit_headers fractions dates headers) [])
    ≡ true
unfolding first_header parse_u64 eq_ignore_ascii_case
near_limit_after_response_example =
    near_limit_after_response fractions dates (85, 1) 7 "a" headers [] refl refl (omega arith)

abbrev unified : Headers
unified = ("anthropic-ratelimit-unified-status", "exceeded") ∷ []

unified_only_untracked_example :
    update
      (ℕ × ℕ)
      7
      "a"
      (enrich_with_unified fractions dates
        (parse_rate_limit_headers fractions dates unified)
        unified)
      []
    ≡ []
unfolding first_header eq_ignore_ascii_case
unified_only_untracked_example = unified_only_untracked fractions dates 7 "a" unified [] refl refl
