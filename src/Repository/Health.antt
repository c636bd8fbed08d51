-- ===== src/Repository/Health.antt =====
-- src/repository.rs: the circuit breaker, the rate limit and the counters of a provider, over any
-- history of outcomes.
use kou_router.Prelude.{ℕ, suc, String, true, false, ◌+◌, ◌≤◌, ◌≡◌, refl, List, [], ◌∷◌, arith}
use kou_router.Models.{Time, ProviderConnection, ProviderAccount}
use kou_router.Repository.{
  seconds, is_rate_limit_message, failed_provider, succeeded_provider, failed_account,
  succeeded_account, selectable, passed,
}

-- What the router reports about an attempt.
pub data Report : Type 0 where
  failure : Time → String → Report
  success : Time → Report

abbrev pub apply : Report → ProviderConnection → ProviderConnection
apply (failure now message) p = failed_provider now message p
apply (success now) p = succeeded_provider now p

-- The newest report stands first.
pub after : List Report → ProviderConnection → ProviderConnection
after [] p = p
after (r ∷ reports) p = apply r (after reports p)

-- How many of the newest reports are failures, or successes.
abbrev pub failures : List Report → ℕ
failures [] = 0
failures (failure now message ∷ reports) = suc (failures reports)
failures (success now ∷ reports) = 0

abbrev pub successes : List Report → ℕ
successes [] = 0
successes (failure now message ∷ reports) = 0
successes (success now ∷ reports) = suc (successes reports)

-- For a new connection the backoff level counts the failures since the last success, and the use
-- count the successes since the last failure, whatever was reported.
pub after-counts :
    (p : ProviderConnection) (reports : List Report)
    → p.backoff_level ≡ 0
    → p.consecutive_use_count ≡ 0
    → ((after reports p).backoff_level ≡ failures reports)
      × ((after reports p).consecutive_use_count ≡ successes reports)
unfolding after failed_provider succeeded_provider
after-counts p [] b c = (b, c)
after-counts p (failure now message ∷ reports) b c =
    let (ih, ih') = after-counts p reports b c in (omega arith, refl)
after-counts p (success now ∷ reports) b c =
    let (ih, ih') = after-counts p reports b c in (refl, omega arith)

-- The account may be selected only behind this instant.
abbrev pub NotBefore : Time → ProviderAccount → Type 0
NotBefore t a = (now : Time) → selectable now a ≡ true → t ≤ now

-- A failed account cannot be selected in the next 15 seconds, nor in the next 30 if the message
-- names a rate limit or quota or has "429"; an earlier rate limit stays in force unless the new
-- failure sets one. After a success it can be selected at any time if it is enabled.
pub account_health :
    (now : Time) (message : String) (a : ProviderAccount) (t : Time)
    → (selectable t (failed_account now message a) ≡ true
        → (a.enabled ≡ true)
          × (now + seconds 15 ≤ t)
          × (is_rate_limit_message message ≡ true → now + seconds 30 ≤ t)
          × (is_rate_limit_message message ≡ false → passed t a.rate_limited_until ≡ true))
      × (selectable t (succeeded_account now a) ≡ a.enabled)
unfolding selectable failed_account succeeded_account
account_health now message a t =
    (λ h. (ground arith, ground arith, λ m. ground arith, λ m. ground arith), ground arith)
