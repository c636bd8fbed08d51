-- ===== src/RateLimit.antt =====
-- src/ratelimit.rs: the rate limits that upstreams report in headers, and what the router remembers
-- of them. The `f64` of Rust is a type with the operations in use, and the dates of chrono are
-- parsed by parameters.
pub mod Headers
pub mod Laws
pub mod Tests
use kou_router.Prelude.{
  ℕ, String, Bool, true, false, ◌&&◌, ◌||◌, Option, none, some, List, [], ◌∷◌, leb, ltb, str_eq,
  if◌then◌else◌, unwrap_or, map_option, or_else, and_then, is_some, ◌-◌,
}
use kou_router.Models.{Time}

-- `f64`: its parser, `(used as f64 / limit as f64) * 100.0`, `100.0`, `>=` and `ceil() as u64`.
pub record Floats : Type 1 where
  pub F64 : Type 0
  pub parse : String → Option F64
  pub percent : ℕ → ℕ → F64
  pub hundred : F64
  pub ge : F64 → F64 → Bool
  pub ceil_u64 : F64 → ℕ

-- chrono: the parser of dates, and `DateTime::from_timestamp(epoch, 0)` at the text of an epoch.
pub record Dates : Type 0 where
  pub parse_date : String → Option Time
  pub epoch : String → Option (Option Time)

module _ (F : Type 0) where
  pub record RateLimitInfo : Type 0 where
    pub remaining : Option ℕ
    pub limit : Option ℕ
    pub reset_at : Option Time
    pub utilization_pct : Option F
    pub retry_after_secs : Option ℕ

  pub record ProviderRateLimitState : Type 0 where
    pub provider_id : String
    pub last_remaining : Option ℕ
    pub last_limit : Option ℕ
    pub last_utilization_pct : Option F
    pub last_reset_at : Option Time
    pub updated_at : Time

  -- The map behind the lock, each id once.
  abbrev pub States : Type 0
  States = List ProviderRateLimitState

  abbrev pub unseen : Time → String → ProviderRateLimitState
  unseen now id = record {
    provider_id = id;
    last_remaining = none;
    last_limit = none;
    last_utilization_pct = none;
    last_reset_at = none;
    updated_at = now;
  }

  unfoldable pub find_state : String → States → Option ProviderRateLimitState
  find_state id [] = none
  find_state id (s ∷ states) = if str_eq s.provider_id id then some s else find_state id states

  -- What an informative report does to an entry.
  unfoldable pub reported : Time → RateLimitInfo → ProviderRateLimitState → ProviderRateLimitState
  reported now info entry = record entry {
    last_remaining = or_else info.remaining entry.last_remaining;
    last_limit = or_else info.limit entry.last_limit;
    last_utilization_pct = info.utilization_pct;
    last_reset_at = info.reset_at;
    updated_at = now;
  }

  -- `entry(id).or_insert_with(...)` and the assignments to it.
  unfoldable pub update_entry : Time → String → RateLimitInfo → States → States
  unfolding reported
  update_entry now id info [] = reported now info (unseen now id) ∷ []
  update_entry now id info (s ∷ states) =
      if str_eq s.provider_id id
      then reported now info s ∷ states
      else s ∷ update_entry now id info states

  abbrev pub informative : RateLimitInfo → Bool
  informative info = is_some info.remaining || is_some info.limit

  unfoldable pub update : Time → String → RateLimitInfo → States → States
  unfolding update_entry
  update now id info states = if informative info then update_entry now id info states else states

  -- `get(id).and_then(last_utilization_pct).map(pct >= warn_threshold).unwrap_or(false)`.
  unfoldable pub is_near_limit : (F → F → Bool) → F → String → States → Bool
  unfolding find_state
  is_near_limit ge warn_threshold id states = unwrap_or false (
      map_option (λ pct. ge pct warn_threshold)
        (and_then (find_state id states) (λ s. s.last_utilization_pct)))
