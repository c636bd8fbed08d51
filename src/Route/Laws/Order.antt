-- ===== src/Route/Laws/Order.antt =====
-- src/service.rs: the loop over the targets of a provider.
use mathlib.Core.List.{append_assoc, append-nil}
use kou_router.Prelude.{ℕ, String, true, ◌≡◌, refl, ◌∙◌, List, [], ◌∷◌, ◌++◌, ◌≢◌}
use kou_router.Errors.{fallback_error}
use kou_router.Models.{ProviderChatAttempt}
use kou_router.Routing.Targets.{Target}
use kou_router.Route.{Env}
use kou_router.Route.State.{Call, Aim, Progress, Outcome, onward, attempt_of}
use kou_router.Route.Run.{try_targets, then_rest}
use kou_router.Route.Execute.{try_target}
use kou_router.Route.Laws.Single.{Single, quiet, failed_once, answered_once, passed_once}
use kou_router.Route.Laws.Target.{try_target-Single}

module _ (env : Env) (call : Call env) (aim : Target → Aim env) where
  -- One attempt for each target, in order, that the router falls back on.
  pub data Passed : List Target → List ProviderChatAttempt → Type 0 where
    none_left : Passed [] []
    one_more :
        (target : Target) (targets : List Target) (status : ℕ) (body : String)
        (attempts : List ProviderChatAttempt)
        → fallback_error status body ≡ true
        → Passed targets attempts
        → Passed (target ∷ targets) (attempt_of env (aim target) status body ∷ attempts)

  -- The loop went on to its end, or it stopped at a target behind those that it passed.
  pub data Ran (before : List ProviderChatAttempt) : List Target → Outcome env → Type 0 where
    to_the_end :
        (targets : List Target) (attempts : List ProviderChatAttempt) (q : Progress env)
        → Passed targets attempts
        → q.tried ≡ before ++ attempts
        → Ran before targets (onward, q)
    stopped_at :
        (passed : List Target) (target : Target) (unseen : List Target)
        (attempts : List ProviderChatAttempt) (o : Outcome env)
        → Passed passed attempts
        → Single env call.endpoint (aim target) (before ++ attempts) o
        → o.0 ≢ onward
        → Ran before (passed ++ target ∷ unseen) o

  prepended :
      (before : List ProviderChatAttempt) (target : Target) (targets : List Target) (status : ℕ)
      (body : String) (o : Outcome env)
      → fallback_error status body ≡ true
      → Ran (before ++ attempt_of env (aim target) status body ∷ []) targets o
      → Ran before (target ∷ targets) o
  prepended before target _ status body _ k (to_the_end targets attempts q h e) =
      to_the_end (target ∷ targets) (attempt_of env (aim target) status body ∷ attempts) q
        (one_more target targets status body attempts k h)
        (e ∙ append_assoc before (attempt_of env (aim target) status body ∷ []) attempts)
  prepended before target _ status body _ k (stopped_at passed last unseen attempts o h s n) =
      stopped_at (target ∷ passed) last unseen (attempt_of env (aim target) status body ∷ attempts)
        o (one_more target passed status body attempts k h)
        (rw (← append_assoc before (attempt_of env (aim target) status body ∷ []) attempts) s) n

  stopped_here :
      (before : List ProviderChatAttempt) (target : Target) (targets : List Target)
      (o : Outcome env)
      → Single env call.endpoint (aim target) before o
      → o.0 ≢ onward
      → Ran before (target ∷ targets) o
  stopped_here before target targets o s n =
      stopped_at [] target targets [] o none_left (rw (append-nil before) s) n

  after_one :
      (before : List ProviderChatAttempt) (target : Target) (targets : List Target)
      (o : Outcome env)
      → Single env call.endpoint (aim target) before o
      → ((q : Progress env) → Ran q.tried targets (try_targets env call aim targets q))
      → Ran before (target ∷ targets) (then_rest env (try_targets env call aim targets) o)
  after_one before target targets _ (quiet e q h) k =
      stopped_here before target targets _ (quiet e q h) (λ n. cc)
  after_one before target targets _ (failed_once status body q h e) k =
      stopped_here before target targets _ (failed_once status body q h e) (λ n. cc)
  after_one before target targets _ (answered_once status body q h r e) k =
      stopped_here before target targets _ (answered_once status body q h r e) (λ n. cc)
  after_one before target targets _ (passed_once status body q h e) k =
      prepended before target targets status body _ e (rw (← h) (k q))

  -- The loop takes the targets in order and skips none: it passes a target only with one attempt of
  -- its account that the router falls back on, and stops at the first target that answers
  -- otherwise, which leaves one attempt, or none with an error.
  pub try_targets-Ran :
      (targets : List Target) (p : Progress env)
      → Ran p.tried targets (try_targets env call aim targets p)
  unfolding try_targets
  try_targets-Ran [] p = to_the_end [] [] p none_left (rw (append-nil p.tried) refl)
  try_targets-Ran (target ∷ targets) p =
      after_one p.tried target targets (try_target env call (aim target) p)
        (try_target-Single env call (aim target) p) (try_targets-Ran targets)
