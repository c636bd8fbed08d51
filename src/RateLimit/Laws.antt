-- ===== src/RateLimit/Laws.antt =====
-- src/ratelimit.rs: what the tracker knows after a history of responses.
use kou_router.Prelude.{
  ℕ, String, Bool, false, ◌&&◌, Option, none, some, List, [], ◌∷◌, str_eq, ◌≡◌, refl, ap,
  if◌then◌else◌, unwrap_or, map_option, or_else, and_then, ◌-◌, ◌<◌, arith, eq_iff, lt→ltb,
}
use kou_router.Text.{eq_ignore_ascii_case, parse_u64, to_ascii_lowercase}
use kou_router.Models.{Time}
use kou_router.Upstream.{Headers}
use kou_router.RateLimit.{
  Floats, Dates, RateLimitInfo, States, unseen, find_state, reported, update_entry, informative,
  update, is_near_limit,
}
use kou_router.RateLimit.Headers.{
  UnifiedRateLimitInfo, find_header, first_header, remaining_names, limit_names, reset_names,
  utilization, parse_rate_limit_headers, enrich_with_unified, enriched_by,
  parse_unified_rate_limit_headers, unified_found, unified_info,
}

module _ (F : Type 0) where
  find_state-update_entry :
      (now : Time) (id j : String) (info : RateLimitInfo F) (states : States F)
      → find_state F j (update_entry F now id info states) ≡ (
          if str_eq id j
          then some (reported F now info (unwrap_or (unseen F now id) (find_state F id states)))
          else find_state F j states)
  unfolding find_state update_entry reported
  find_state-update_entry now id j info [] = ground arith
  find_state-update_entry now id j info (s ∷ states) = ground (
    arith,
    find_state-update_entry now id j info states,
    eq_iff s.provider_id id,
    eq_iff s.provider_id j,
    eq_iff id j,
  )

  -- The reports of a run: the instant, the provider and what its response said, the newest first.
  abbrev pub Report : Type 0
  Report = Time × String × RateLimitInfo F

  pub after : List Report → States F
  unfolding update
  after [] = []
  after (r ∷ reports) = update F r.0 r.1 r.2 (after reports)

  -- The utilization in the newest report on the provider that says anything.
  abbrev pub latest_utilization : String → List Report → Option F
  latest_utilization id [] = none
  latest_utilization id (r ∷ reports) =
      if str_eq r.1 id && informative F r.2
      then r.2.utilization_pct
      else latest_utilization id reports

  -- The newest number of remaining requests that was reported for the provider.
  abbrev pub latest_remaining : String → List Report → Option ℕ
  latest_remaining id [] = none
  latest_remaining id (r ∷ reports) =
      if str_eq r.1 id
      then or_else r.2.remaining (latest_remaining id reports)
      else latest_remaining id reports

  after-utilization :
      (id : String) (reports : List Report)
      → and_then (find_state F id (after reports)) (λ s. s.last_utilization_pct)
        ≡ latest_utilization id reports
  unfolding find_state after update reported
  after-utilization id [] = refl
  after-utilization id ((now, j, info) ∷ reports) = ground (
    arith,
    after-utilization id reports,
    find_state-update_entry now j id info (after reports),
    eq_iff j id,
  )

  after-remaining :
      (id : String) (reports : List Report)
      → and_then (find_state F id (after reports)) (λ s. s.last_remaining)
        ≡ latest_remaining id reports
  unfolding find_state after update reported
  after-remaining id [] = refl
  after-remaining id ((now, j, info) ∷ reports) = ground (
    arith,
    after-remaining id reports,
    find_state-update_entry now j id info (after reports),
    eq_iff j id,
  )

  -- After any history of reports on any providers, a provider counts as near its limit just if the
  -- newest report on it that names a number of requests or a limit has a utilization at the
  -- threshold or above, and the tracker's number of remaining requests is the newest one reported.
  pub is_near_limit_latest :
      (ge : F → F → Bool) (threshold : F) (id : String) (reports : List Report)
      → (is_near_limit F ge threshold id (after reports)
          ≡ unwrap_or false (map_option (λ pct. ge pct threshold) (latest_utilization id reports)))
        × (and_then (find_state F id (after reports)) (λ s. s.last_remaining)
            ≡ latest_remaining id reports)
  unfolding is_near_limit
  is_near_limit_latest ge threshold id reports =
      (rw (after-utilization id reports) refl, after-remaining id reports)

-- The same headers in the same order, but for the case of the names.
abbrev pub SameHeaders : Headers → Headers → Type 0
SameHeaders [] [] = Unit
SameHeaders [] (k ∷ ks) = ⊥
SameHeaders (h ∷ hs) [] = ⊥
SameHeaders (h ∷ hs) (k ∷ ks) =
    (to_ascii_lowercase h.0 ≡ to_ascii_lowercase k.0) × (h.1 ≡ k.1) × SameHeaders hs ks

find_header-same :
    (name : String) (hs ks : Headers)
    → SameHeaders hs ks
    → find_header name hs ≡ find_header name ks
unfolding find_header eq_ignore_ascii_case
find_header-same name [] [] s = refl
find_header-same name [] (k ∷ ks) s = absurd s
find_header-same name (h ∷ hs) [] s = absurd s
find_header-same name ((n, v) ∷ hs) ((m, w) ∷ ks) (e, f, s) =
    rw (e, f, find_header-same name hs ks s) refl

first_header-same :
    (names : List String) (hs ks : Headers)
    → SameHeaders hs ks
    → first_header names hs ≡ first_header names ks
unfolding first_header
first_header-same [] hs ks s = refl
first_header-same (name ∷ names) hs ks s =
    rw (find_header-same name hs ks s, first_header-same names hs ks s) refl

module _ (fl : Floats) (dates : Dates) where
  -- The case of header names changes nothing in what is read from a response, neither from the
  -- legacy headers nor from the unified ones.
  pub parse_rate_limit_headers-case_insensitive :
      (info : RateLimitInfo fl.F64) (hs ks : Headers)
      → SameHeaders hs ks
      → (parse_rate_limit_headers fl dates hs ≡ parse_rate_limit_headers fl dates ks)
        × (enrich_with_unified fl dates info hs ≡ enrich_with_unified fl dates info ks)
  unfolding parse_rate_limit_headers enrich_with_unified parse_unified_rate_limit_headers
      unified_info
  parse_rate_limit_headers-case_insensitive info hs ks s = (
    rw
        (
          first_header-same remaining_names hs ks s,
          first_header-same limit_names hs ks s,
          first_header-same reset_names hs ks s,
          find_header-same "retry-after" hs ks s,
        )
        refl,
    let found : (λ (name : String). find_header name hs) ≡ (λ name. find_header name ks) =
          λ i name. find_header-same name hs ks s i in
        ap (λ find. enriched_by fl dates info (unified_found fl dates find)) found,
  )

  -- A response that states how many requests remain and a positive limit decides by itself whether
  -- the provider counts as near its limit, on the share of the limit that is used; whatever the
  -- tracker knew before is forgotten.
  pub near_limit_after_response :
      (threshold : fl.F64) (now : Time) (id : String) (headers : Headers) (states : States fl.F64)
      {r l : ℕ}
      → and_then (first_header remaining_names headers) parse_u64 ≡ some r
      → and_then (first_header limit_names headers) parse_u64 ≡ some l
      → 0 < l
      → is_near_limit fl.F64 fl.ge threshold id
          (update fl.F64 now id (parse_rate_limit_headers fl dates headers) states)
        ≡ fl.ge (fl.percent (l - r) l) threshold
  unfolding is_near_limit update parse_rate_limit_headers reported utilization
  near_limit_after_response threshold now id headers states {r} {l} e f h =
      rw (e, f, find_state-update_entry fl.F64 now id id _ states)
        (ground (arith, eq_iff id id, lt→ltb 0 l h))

  enriched_by-informative :
      (info : RateLimitInfo fl.F64) (o : Option (UnifiedRateLimitInfo fl.F64))
      → informative fl.F64 (enriched_by fl dates info o) ≡ informative fl.F64 info
  unfolding enriched_by
  enriched_by-informative info none = refl
  enriched_by-informative info (some unified) = refl

  nothing-informative :
      (headers : Headers)
      → first_header remaining_names headers ≡ none
      → first_header limit_names headers ≡ none
      → informative fl.F64 (parse_rate_limit_headers fl dates headers) ≡ false
  unfolding parse_rate_limit_headers
  nothing-informative headers e f = rw (e, f) refl

  -- A response whose only limits are the unified ones leaves the tracker as it is, even when they
  -- say that the limit is exceeded and the information was enriched with them.
  pub unified_only_untracked :
      (now : Time) (id : String) (headers : Headers) (states : States fl.F64)
      → first_header remaining_names headers ≡ none
      → first_header limit_names headers ≡ none
      → update fl.F64 now id
          (enrich_with_unified fl dates (parse_rate_limit_headers fl dates headers) headers)
          states
        ≡ states
  unfolding update enrich_with_unified
  unified_only_untracked now id headers states e f =
      let q =
        enriched_by-informative (parse_rate_limit_headers fl dates headers)
          (parse_unified_rate_limit_headers fl dates headers) in
      rw (q, nothing-informative headers e f) refl
