-- ===== src/Route/Laws/Execute.antt =====
-- src/service.rs: an execution leaves the attempts as they were.
use kou_router.Prelude.{◌≡◌, refl, ◌∙◌, inl, inr, Option, none, some, ◌&&◌, Bool-cases}
use kou_router.Errors.{Result, ok, err}
use kou_router.Models.{ProviderConnection, ProviderAccount}
use kou_router.Retry.{RetryOutcome}
use kou_router.Repository.{Repository}
use kou_router.ResponseCache.Key.{ResponseCacheIdentity}
use kou_router.Route.{Env}
use kou_router.Route.State.{Call, Aim, Progress}
use kou_router.Route.Plan.{Sent}
use kou_router.Route.Execute.{
  executed, executed_again, after_first, execute_with_oauth_retry, looked_up, is_oauth,
  is_unauthorized,
}

module _ (env : Env) (call : Call env) (aim : Aim env) (sent : Sent env) where
  executed-tried :
      (provider : ProviderConnection) (p : Progress env)
      → (executed env call aim sent provider p).1.tried ≡ p.tried
  unfolding executed
  executed-tried provider p = refl

  executed_again-tried :
      (outcome : RetryOutcome) (p : Progress env) (fresh : Result ProviderAccount × Repository)
      → (executed_again env call aim sent outcome p fresh).1.tried ≡ p.tried
  unfolding executed_again executed
  executed_again-tried outcome p (err e, r) = refl
  executed_again-tried outcome p (ok account, r) = refl

  after_first-tried :
      (account : Option ProviderAccount) (o : Result RetryOutcome × Progress env)
      → (after_first env call aim sent account o).1.tried ≡ o.1.tried
  unfolding after_first
  after_first-tried account (err e, p) = refl
  after_first-tried none (ok outcome, p) = refl
  after_first-tried (some account) (ok outcome, p) =
      elim (Bool-cases (is_oauth env account.auth_mode && is_unauthorized env outcome.result)) [
        | inl e ↦ rw e (executed_again-tried outcome p (env.refresh account.id p.world.repository))
        | inr e ↦ rw e refl
      ]

  pub execute_with_oauth_retry-tried :
      (p : Progress env) → (execute_with_oauth_retry env call aim sent p).1.tried ≡ p.tried
  unfolding execute_with_oauth_retry
  execute_with_oauth_retry-tried p =
      after_first-tried aim.account _ ∙ executed-tried aim.resolved_provider p

  pub looked_up-tried :
      (o : Option ResponseCacheIdentity) (p : Progress env)
      → (looked_up env call sent o p).1.tried ≡ p.tried
  unfolding looked_up
  looked_up-tried none p = refl
  looked_up-tried (some identity) p =
      elim (Bool-cases (call.cache_context.read && sent.policy.cacheable)) [
        | inl e ↦ rw e refl
        | inr e ↦ rw e refl
      ]
